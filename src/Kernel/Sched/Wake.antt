-- ===== src/Kernel/Sched/Wake.antt =====
-- How sleeping tasks come to run: the loop of `sched_ms_tick`.
use n00b_os.Prelude.{
  ℕ, zero, suc, ◌-◌, ◌<◌, ◌≡◌, refl, sym, ap, ◌∙◌, ◌≢◌, true, false, not, ◌&&◌, some, List, [], ◌∷◌,
  arith, ◌==◌, if◌then◌else◌, length, subst, ◌⊎◌, inl, inr, Bool-cases,
}
use n00b_os.Kernel.Links.{has, ◌∉◌}
use n00b_os.Kernel.Sched.{Tasks, Sched, link_after, put_in_schedule_ring, wake}
use n00b_os.Kernel.Sched.Queue.{Sleepers, sleeps, IsQueue, IsQueue-frame}
use n00b_os.Kernel.Sched.RunRing.{RunRing, link_after-RunRing}

-- the sleepers whose time has come, first those that lead the list
abbrev pub due : Sleepers → List ℕ
due [] = []
due ((a, d) ∷ xs) = if d == 0 then a ∷ due xs else []

-- those that sleep on
abbrev pub asleep : Sleepers → Sleepers
asleep [] = []
asleep ((a, d) ∷ xs) = if d == 0 then asleep xs else (a, d) ∷ xs

-- the tasks of the first list put behind the current one, each before the last
abbrev pub awakened : List ℕ → List ℕ → List ℕ
awakened [] rs = rs
awakened (a ∷ tasks) rs = awakened tasks (a ∷ rs)

-- the first sleeper has a tick less to sleep
abbrev pub ticked : Sleepers → Sleepers
ticked [] = []
ticked ((a, d) ∷ xs) = (a, d - 1) ∷ xs

pub link_after-frame :
    (tasks : Tasks) (p new b : ℕ) (rs : List ℕ)
    → RunRing tasks p rs
    → b ∉ (p ∷ rs)
    → b ≢ new
    → link_after tasks p new b ≡ tasks b
unfolding link_after
link_after-frame tasks p new b [] r out ne = ground (arith, r.chain)
link_after-frame tasks p new b (x ∷ rs) r out ne = ground (arith, r.chain)

-- A task that wakes is put behind `p`: the current task, or the first that woke while none ran.
abbrev pub Anchored : Sched → ℕ → Type 0
Anchored s p = (p ≢ 0) × ((s.current_task ≡ p) ⊎ ((s.current_task ≡ 0) × (s.switched_task ≡ p)))

-- what waking tasks leaves alone
pub record Undisturbed (s s' : Sched) : Type 0 where
  pub current_task : s'.current_task ≡ s.current_task
  pub doomed_task : s'.doomed_task ≡ s.doomed_task
  pub priority : (b : ℕ) → (s'.tasks b).priority ≡ (s.tasks b).priority

-- `rs` run behind `p`, and `xs` sleep; those in `sleepers` slept before
pub record Woken (s s' : Sched) (p : ℕ) (rs : List ℕ) (sleepers xs : Sleepers) : Type 0 where
  pub undisturbed : Undisturbed s s'
  pub switched_task : s'.switched_task ≡ s.switched_task
  pub switching : s'.switching ≡ s.switching
  pub remaining_ticks :
      (b : ℕ)
      → sleeps b sleepers ≡ false
      → (s'.tasks b).remaining_ticks ≡ (s.tasks b).remaining_ticks
  pub ring : RunRing s'.tasks p rs
  pub queue : IsQueue s'.tasks s'.sleeping_task xs

pub link_after-priority :
    (tasks : Tasks) (p new b : ℕ) → (link_after tasks p new b).priority ≡ (tasks b).priority
unfolding link_after
link_after-priority tasks p new b = ground arith

pub link_after-remaining_ticks :
    (tasks : Tasks) (p new b : ℕ)
    → (link_after tasks p new b).remaining_ticks ≡ (tasks b).remaining_ticks
unfolding link_after
link_after-remaining_ticks tasks p new b = ground arith

put_behind :
    (s : Sched) (p task : ℕ)
    → Anchored s p
    → put_in_schedule_ring s task ≡ record s { tasks = link_after s.tasks p task }
unfolding put_in_schedule_ring
put_behind s p task h = ground arith

pub unchanged :
    (s : Sched) (p : ℕ) (rs : List ℕ) (xs : Sleepers)
    → RunRing s.tasks p rs
    → IsQueue s.tasks s.sleeping_task xs
    → Woken s s p rs xs xs
unchanged s p rs xs r q = record {
  undisturbed = record { current_task = refl; doomed_task = refl; priority = λ b. refl };
  switched_task = refl;
  switching = refl;
  remaining_ticks = λ b i. refl;
  ring = r;
  queue = q;
}

pub wake_lem :
    (fuel : ℕ) (s : Sched) (p : ℕ) (rs : List ℕ) (xs : Sleepers)
    → Anchored s p
    → RunRing s.tasks p rs
    → IsQueue s.tasks s.sleeping_task xs
    → ((b : ℕ) → has b (p ∷ rs) ≡ true → sleeps b xs ≡ false)
    → length xs < fuel
    → (s' : Sched) × (wake fuel s ≡ some s') × Woken s s' p (awakened (due xs) rs) xs (asleep xs)
unfolding wake
wake_lem zero s p rs xs anchored r q none_both lt = absurd (omega arith)
wake_lem (suc fuel) s p rs [] anchored r q none_both lt =
    (s, ground (arith, q), unchanged s p rs [] r q)
wake_lem (suc fuel) s p rs ((a, d) ∷ xs) anchored r q none_both lt = elim (Bool-cases (d == 0)) [
  | inr more ↦ (
    s,
    ground (arith, q.0, q.2, more),
    subst
        (λ b.
          Woken s s p (awakened (if b then a ∷ due xs else []) rs) ((a, d) ∷ xs)
            (if b then asleep xs else (a, d) ∷ xs))
        (sym more) (unchanged s p rs ((a, d) ∷ xs) r q),
  )
  | inl now ↦
      let s1 = record s { tasks = link_after s.tasks p a; sleeping_task = (s.tasks a).next } in
      let apart : a ≢ p = ground (arith, none_both a) in
      let out : a ∉ rs = ground (arith, none_both a) in
      let ring1 = link_after-RunRing s.tasks p a rs r apart out in
      let queue1 =
        IsQueue-frame s.tasks s1.tasks (s.tasks a).next xs
          (λ b i.
            link_after-frame s.tasks p a b rs r (ground (arith, none_both b)) (ground (arith, q.4)))
          q.5 in
      let woken : ℕ → Sched =
        λ t. record (put_in_schedule_ring s t) { sleeping_task = (s.tasks t).next } in
      let move_on : Sched → Sched = λ t. record t { sleeping_task = (s.tasks a).next } in
      let same : woken s.sleeping_task ≡ s1 =
        ap woken q.0 ∙ ap move_on (put_behind s p a anchored) in
      let w =
        wake_lem fuel s1 p (a ∷ rs) xs anchored ring1 queue1
          (λ b i. ground (arith, none_both b, q.4)) (omega arith) in
      (
        w.0,
        subst
            (λ t.
              (if not (s.sleeping_task == 0) && (s.tasks s.sleeping_task).remaining_ticks == 0
                then wake fuel t
                else some s)
              ≡ some w.0)
            (sym same) (ground (arith, w.1, q.0, q.1, q.2, now)),
        subst
            (λ b.
              Woken s w.0 p (awakened (if b then a ∷ due xs else []) rs) ((a, d) ∷ xs)
                (if b then asleep xs else (a, d) ∷ xs))
            (sym now)
            (record {
              undisturbed = record {
                current_task = w.2.undisturbed.current_task;
                doomed_task = w.2.undisturbed.doomed_task;
                priority = λ b. w.2.undisturbed.priority b ∙ link_after-priority s.tasks p a b;
              };
              switched_task = w.2.switched_task;
              switching = w.2.switching;
              remaining_ticks = λ b i.
                  w.2.remaining_ticks b (ground arith) ∙ link_after-remaining_ticks s.tasks p a b;
              ring = w.2.ring;
              queue = w.2.queue;
            }),
      )
]
