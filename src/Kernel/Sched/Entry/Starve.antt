-- ===== src/Kernel/Sched/Entry/Starve.antt =====
-- Tasks that wait while others sleep and wake.
use n00b_os.Prelude.{
  ℕ, zero, suc, ◌+◌, ◌-◌, ◌≤◌, ◌<◌, ◌^◌, ◌≡◌, refl, sym, ap, ◌∙◌, subst, ◌⊎◌, inl, inr, some, List,
  [], ◌∷◌, ◌++◌, arith, length,
}
use n00b_os.Kernel.Sched.{Sched}
use n00b_os.Kernel.Sched.RunRing.{RunRing, Runs}
use n00b_os.Kernel.Sched.Plan.{Plan, Event, tick, sleep, plan_step, plan_run, AllAllowed}
use n00b_os.Kernel.Sched.Plan.Valid.{IsValid}
use n00b_os.Kernel.Sched.Plan.Size.{size}
use n00b_os.Kernel.Sched.Entry.{handle_all}
use n00b_os.Kernel.Sched.Entry.Follows.{Follows}
use n00b_os.Kernel.Sched.Entry.Refine.{handle_all-Follows}

-- the first `k` events of: a tick, the current task sleeps for one tick, a tick, ...
abbrev mutual
  pub naps : ℕ → List Event
  naps zero = []
  naps (suc k) = tick ∷ naps_next k

  pub naps_next : ℕ → List Event
  naps_next zero = []
  naps_next (suc k) = sleep 1 ∷ naps k

module _ (priority : ℕ → ℕ) (rs : List ℕ) where
  -- `x` runs, `y` sleeps until the next tick, and `rs` wait for their turns
  abbrev pub napping : ℕ → ℕ → ℕ → List ℕ → Plan
  napping x y quantum doomed = record {
    running = x ∷ rs;
    quantum = quantum;
    priority = priority;
    sleepers = (y, 1) ∷ [];
    doomed = doomed;
  }

  abbrev woken : ℕ → ℕ → ℕ → Plan
  woken x y quantum = record {
    running = x ∷ y ∷ rs;
    quantum = quantum;
    priority = priority;
    sleepers = [];
    doomed = [];
  }

  tick_napping :
      (x y quantum : ℕ) (doomed : List ℕ)
      → 2 ≤ quantum
      → quantum < 2 ^ 32
      → plan_step tick (napping x y quantum doomed) ≡ woken x y (quantum - 1)
  unfolding plan_step
  tick_napping x y quantum doomed lo hi = ground arith

  sleep_woken :
      (x y quantum : ℕ) → plan_step (sleep 1) (woken x y quantum) ≡ napping y x (priority y) []
  unfolding plan_step
  sleep_woken x y quantum = refl

  -- `x` or `y` runs, and `rs` wait behind
  pub record Waits (x y : ℕ) (es : List Event) (p : Plan) : Type 0 where
    pub allowed : AllAllowed es p
    pub current : ℕ
    pub either : (current ≡ x) ⊎ (current ≡ y)
    pub others : List ℕ
    pub running : (plan_run es p).running ≡ current ∷ (others ++ rs)

  -- `x` and `y` have quanta of two ticks or more
  abbrev pub Quantum : ℕ → Type 0
  Quantum q = (2 ≤ q) × (q < 2 ^ 32)

  mutual
    naps-Waits :
        (k x y quantum : ℕ) (doomed : List ℕ)
        → Quantum quantum
        → Quantum (priority x)
        → Quantum (priority y)
        → Waits x y (naps k) (napping x y quantum doomed)
    naps-Waits zero x y quantum doomed q qx qy = record {
      allowed = tt;
      current = x;
      either = inl refl;
      others = [];
      running = refl;
    }
    naps-Waits (suc k) x y quantum doomed q qx qy =
        let e = tick_napping x y quantum doomed q.0 q.1 in
        let w = naps_next-Waits k x y (quantum - 1) qx qy in
        record {
          allowed = (tt, subst (AllAllowed (naps_next k)) (sym e) w.allowed);
          current = w.current;
          either = w.either;
          others = w.others;
          running = ap (λ p. (plan_run (naps_next k) p).running) e ∙ w.running;
        }

    naps_next-Waits :
        (k x y quantum : ℕ)
        → Quantum (priority x)
        → Quantum (priority y)
        → Waits x y (naps_next k) (woken x y quantum)
    naps_next-Waits zero x y quantum qx qy = record {
      allowed = tt;
      current = x;
      either = inl refl;
      others = y ∷ [];
      running = refl;
    }
    naps_next-Waits (suc k) x y quantum qx qy =
        let e = sleep_woken x y quantum in
        let w = naps-Waits k y x (priority y) [] qy qy qx in
        record {
          allowed = (
            (λ n. ground (arith, n), omega arith),
            subst (AllAllowed (naps k)) (sym e) w.allowed,
          );
          current = w.current;
          either = elim w.either [ inl i ↦ inr i | inr i ↦ inl i ];
          others = w.others;
          running = ap (λ p. (plan_run (naps k) p).running) e ∙ w.running;
        }

-- While two tasks sleep for a tick in turn, each woken behind the other, one of them is the current task
-- after each event, however many ticks pass, and all others stay in the ring without their turn, if the
-- quanta of the two are of two ticks or more, the scheduler follows a valid plan, and the fuel lasts.
pub starved :
    (fuel : ℕ) (frames : ℕ → ℕ × ℕ) (k x y quantum : ℕ) (priority : ℕ → ℕ) (rs doomed : List ℕ)
    (s : Sched)
    → Follows s (napping priority rs x y quantum doomed)
    → IsValid (napping priority rs x y quantum doomed)
    → Quantum priority rs quantum
    → Quantum priority rs (priority x)
    → Quantum priority rs (priority y)
    → size (napping priority rs x y quantum doomed) + length (naps k) < fuel
    → (s' : Sched) × (others : List ℕ) × (handle_all fuel frames (naps k) s ≡ some s')
      × ((s'.current_task ≡ x) ⊎ (s'.current_task ≡ y))
      × RunRing s'.tasks s'.current_task (others ++ rs)
starved fuel frames k x y quantum priority rs doomed s f v q qx qy lt =
    let w = naps-Waits priority rs k x y quantum doomed q qx qy in
    let (s', ran, f', v') =
      handle_all-Follows fuel frames (naps k) s (napping priority rs x y quantum doomed) f v
        w.allowed lt in
    let first = subst (Runs s'.tasks s'.current_task) w.running f'.lists.runs in
    (
      s',
      w.others,
      ran,
      elim w.either [ inl i ↦ inl (first.0 ∙ i) | inr i ↦ inr (first.0 ∙ i) ],
      subst (λ a. RunRing s'.tasks a (w.others ++ rs)) (sym first.0) first.1,
    )
