-- ===== src/Kernel/Sched/Entry/Tick.antt =====
-- `sched_ms_tick`, as a step of the plan.
use n00b_os.Prelude.{
  ℕ, zero, suc, ◌-◌, ◌<◌, ◌≡◌, refl, ◌∙◌, sym, ap, true, false, not, ◌&&◌, some, List, [], ◌∷◌,
  arith, ◌==◌, if◌then◌else◌, Bool-cases, inl, inr, subst, length,
}
use n00b_os.Kernel.Sched.{Sched, set_task, put_in_schedule_ring, wake, tick_sleeping}
use n00b_os.Kernel.Sched.Queue.{Sleepers, IsQueue, IsQueue-frame}
use n00b_os.Kernel.Sched.RunRing.{Runs, RunRing}
use n00b_os.Kernel.Sched.Wake.{due, asleep, ticked, Undisturbed, wake_lem}
use n00b_os.Kernel.Sched.Ticks.{not_due, count_down, count_down-IsQueue}
use n00b_os.Kernel.Sched.Plan.{wake_up}

-- What a tick does for the sleepers while the kernel is idle: the first that wakes is switched to.
pub record Roused (s s' : Sched) (running : List ℕ) (xs : Sleepers) : Type 0 where
  pub undisturbed : Undisturbed s s'
  pub runs : Runs s'.tasks s'.switched_task running
  pub on : s'.switching ≡ false → s'.switched_task ≡ 0
  pub queue : IsQueue s'.tasks s'.sleeping_task xs

still_idle :
    (s : Sched) (xs : Sleepers)
    → s.switched_task ≡ 0
    → IsQueue s.tasks s.sleeping_task xs
    → Roused s s [] xs
still_idle s xs n q = record {
  undisturbed = record { current_task = refl; doomed_task = refl; priority = λ b. refl };
  runs = n;
  on = λ e. n;
  queue = q;
}

-- `task` as the only one that runs
abbrev alone : Sched → ℕ → Sched
alone s task = record s {
  tasks = set_task s.tasks task (record (s.tasks task) { next = task; previous = task });
  switched_task = task;
  switching = true;
}

put_alone :
    (s : Sched) (task : ℕ)
    → s.current_task ≡ 0
    → s.switched_task ≡ 0
    → put_in_schedule_ring s task ≡ alone s task
unfolding put_in_schedule_ring
put_alone s task c n = ground arith

alone-RunRing : (s : Sched) (a : ℕ) → RunRing (alone s a).tasks a []
alone-RunRing s a = record { chain = ground arith; apart = refl; distinct = tt }

wake_idle :
    (fuel : ℕ) (s : Sched) (xs : Sleepers)
    → s.current_task ≡ 0
    → s.switched_task ≡ 0
    → IsQueue s.tasks s.sleeping_task xs
    → length xs < fuel
    → (s' : Sched) × (wake fuel s ≡ some s') × Roused s s' (wake_up (due xs) []) (asleep xs)
unfolding wake
wake_idle zero s xs c n q lt = absurd (omega arith)
wake_idle (suc fuel) s [] c n q lt = (s, ground (arith, q), still_idle s [] n q)
wake_idle (suc fuel) s ((a, d) ∷ xs) c n q lt = elim (Bool-cases (d == 0)) [
  | inr more ↦ (
    s,
    ground (arith, q.0, q.2, more),
    subst
        (λ b.
          Roused s s (wake_up (if b then a ∷ due xs else []) [])
            (if b then asleep xs else (a, d) ∷ xs))
        (sym more) (still_idle s ((a, d) ∷ xs) n q),
  )
  | inl now ↦
      let s1 = record (alone s a) { sleeping_task = (s.tasks a).next } in
      let queue1 =
        IsQueue-frame s.tasks s1.tasks (s.tasks a).next xs (λ b i. ground (arith, q.4)) q.5 in
      let woken : ℕ → Sched =
        λ t. record (put_in_schedule_ring s t) { sleeping_task = (s.tasks t).next } in
      let move_on : Sched → Sched = λ t. record t { sleeping_task = (s.tasks a).next } in
      let same : woken s.sleeping_task ≡ s1 = ap woken q.0 ∙ ap move_on (put_alone s a c n) in
      let w =
        wake_lem fuel s1 a [] xs (q.1, inr (c, refl)) (alone-RunRing s a) queue1
          (λ b i. ground (arith, q.4)) (omega arith) in
      (
        w.0,
        subst
            (λ t.
              (if not (s.sleeping_task == 0) && (s.tasks s.sleeping_task).remaining_ticks == 0
                then wake fuel t
                else some s)
              ≡ some w.0)
            (sym same) (ground (arith, w.1, q.0, q.1, q.2, now)),
        subst
            (λ b.
              Roused s w.0 (wake_up (if b then a ∷ due xs else []) [])
                (if b then asleep xs else (a, d) ∷ xs))
            (sym now)
            (record {
              undisturbed = record {
                current_task = w.2.undisturbed.current_task;
                doomed_task = w.2.undisturbed.doomed_task;
                priority = λ b. w.2.undisturbed.priority b ∙ ground arith;
              };
              runs = (w.2.switched_task, w.2.ring);
              on = λ e. absurd (ground (arith, e, w.2.switching));
              queue = w.2.queue;
            }),
      )
]

pub tick_idle :
    (fuel : ℕ) (s : Sched) (xs : Sleepers)
    → s.current_task ≡ 0
    → s.switched_task ≡ 0
    → IsQueue s.tasks s.sleeping_task xs
    → due xs ≡ []
    → length xs < fuel
    → (s' : Sched) × (tick_sleeping fuel s ≡ some s')
      × Roused s s' (wake_up (due (ticked xs)) []) (asleep (ticked xs))
unfolding tick_sleeping
tick_idle fuel s [] c n q positive lt = (s, ground (arith, q), still_idle s [] n q)
tick_idle fuel s ((a, d) ∷ xs) c n q positive lt =
    let s1 = record s { tasks = count_down s.tasks a } in
    let queue1 = count_down-IsQueue s.tasks a d s.sleeping_task xs q (not_due a d xs positive) in
    let w =
      wake_idle fuel s1 ((a, d - 1) ∷ xs) c n
        (subst (λ p. IsQueue s1.tasks p ((a, d - 1) ∷ xs)) (sym q.0) queue1) lt in
    let counted : ℕ → Sched = λ t. record s { tasks = count_down s.tasks t } in
    let same : counted s.sleeping_task ≡ s1 = ap counted q.0 in
    (
      w.0,
      subst (λ t. (if s.sleeping_task == 0 then some s else wake fuel t) ≡ some w.0) (sym same)
          (ground (arith, w.1, q.0, q.1)),
      record {
        undisturbed = record {
          current_task = w.2.undisturbed.current_task;
          doomed_task = w.2.undisturbed.doomed_task;
          priority = λ b. w.2.undisturbed.priority b ∙ ground arith;
        };
        runs = w.2.runs;
        on = w.2.on;
        queue = w.2.queue;
      },
    )
