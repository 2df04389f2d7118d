-- ===== src/Kernel/Sched/Entry/Count.antt =====
-- `sched_ms_tick`, as a step of the plan: the current task, and the whole function.
use n00b_os.Prelude.{
  ap, ◌∙◌, ◌<◌, length, some, ℕ, ◌≡◌, refl, sym, ◌≢◌, Bool, true, false, List, [], ◌∷◌, ◌++◌, arith,
  ◌==◌, if◌then◌else◌, Bool-cases, inl, inr, subst,
}
use n00b_os.Kernel.Sched.{sched_ms_tick, tick_sleeping, Tasks, Sched, decrement, tick_current}
use n00b_os.Kernel.Sched.Queue.{sleeps}
use n00b_os.Kernel.Sched.RunRing.{RunRing, Runs, RunRing-Runs}
use n00b_os.Kernel.Sched.Ticks.{count_down}
use n00b_os.Kernel.Sched.Plan.{Plan, begin}
use n00b_os.Kernel.Sched.Wake.{due, asleep, awakened, ticked}
use n00b_os.Kernel.Sched.Ticks.{tick_sleeping_lem}
use n00b_os.Kernel.Sched.Kill.{doomed_from_lem}
use n00b_os.Kernel.Sched.Plan.{count, wake_up, plan_step, tick, first_quantum}
use n00b_os.Kernel.Sched.Plan.Valid.{Valid, IsValid, sleeps-ticked, sleeps-asleep}
use n00b_os.Kernel.Sched.Entry.Tick.{tick_idle}
use n00b_os.Kernel.Sched.Entry.Follows.{
  InMemory, Follows, leader, Ready, SameLinks, IsQueue-SameLinks, Doomed-SameLinks, Runs-SameLinks,
}

module _ (s : Sched) where
  abbrev c : ℕ
  c = s.current_task

  abbrev counted : Tasks
  counted = count_down s.tasks c

  same : SameLinks s.tasks counted
  same = record { next = λ a. ground arith; previous = λ a. ground arith }

  expire :
      c ≢ 0
      → decrement (s.tasks c).remaining_ticks == 0 ≡ true
      → tick_current s
        ≡ record s { tasks = counted; switched_task = (s.tasks c).next; switching = true }
  unfolding tick_current
  expire nz z = ground arith

  go_on :
      c ≢ 0
      → decrement (s.tasks c).remaining_ticks == 0 ≡ false
      → tick_current s ≡ record s { tasks = counted; switching = false }
  unfolding tick_current
  go_on nz z = ground arith

  module _ (p : Plan) (rs : List ℕ) (h : InMemory s c (record p { running = c ∷ rs })) (nz : c ≢ 0)
      (q : (s.tasks c).remaining_ticks ≡ p.quantum) (awake : sleeps c p.sleepers ≡ false) where
    counted-InMemory :
        (running : List ℕ) (first : ℕ) (switching : Bool) (switched quantum : ℕ)
        → Runs s.tasks first running
        → InMemory
            (record s { tasks = counted; switching = switching; switched_task = switched })
            first
            (record p { running = running; quantum = quantum })
    counted-InMemory running first switching switched quantum r = record {
      runs = Runs-SameLinks same first running r;
      queue =
          IsQueue-SameLinks same s.sleeping_task p.sleepers (λ a i. ground (arith, awake)) h.queue;
      doomed = Doomed-SameLinks same s.doomed_task p.doomed h.doomed;
      priority = λ a. ground (arith, h.priority a);
    }

    -- the plan after the tick, by whether the quantum is used up
    abbrev turn : Bool → Plan
    turn b =
        if b
        then begin (record p { running = rs ++ (c ∷ []) })
        else record p { running = c ∷ rs; quantum = decrement p.quantum }

    tick_current-Ready : Ready (tick_current s) (turn (decrement p.quantum == 0))
    tick_current-Ready = elim (Bool-cases (decrement p.quantum == 0)) [
      | inl z ↦
          subst (λ b. Ready (tick_current s) (turn b)) (sym z)
            (subst (λ t. Ready t (turn true)) (sym (expire nz (ground (arith, q, z))))
              (record {
                lists =
                    counted-InMemory (rs ++ (c ∷ [])) (s.tasks c).next true (s.tasks c).next
                      (first_quantum p.priority (rs ++ (c ∷ [])))
                      (RunRing-Runs s.tasks c rs h.runs.1);
                idle = λ e. absurd (ground (arith, e));
                starts = λ e. refl;
                stays = λ e. absurd (ground (arith, e));
              }))
      | inr n ↦
          subst (λ b. Ready (tick_current s) (turn b)) (sym n)
            (subst (λ t. Ready t (turn false)) (sym (go_on nz (ground (arith, q, n))))
              (record {
                lists =
                    counted-InMemory (c ∷ rs) c false s.switched_task (decrement p.quantum) h.runs;
                idle = λ e z. absurd (nz z);
                starts = λ e. absurd (ground (arith, e));
                stays = λ e z. ground (arith, q);
              }))
    ]

idle_after : (s : Sched) → s.current_task ≡ 0 → tick_current s ≡ s
unfolding tick_current
idle_after s z = ground arith

wake_up-current :
    (woken : List ℕ) (c : ℕ) (rs : List ℕ) → wake_up woken (c ∷ rs) ≡ c ∷ awakened woken rs
wake_up-current [] c rs = refl
wake_up-current (a ∷ woken) c rs = refl

-- the tick but for the tasks that are to be freed
module _ (fuel : ℕ) (s : Sched) (p : Plan) where
  abbrev Ticks : List ℕ → Type 0
  Ticks running =
      (s' : Sched) × (tick_sleeping fuel (record s { doomed_task = 0 }) ≡ some s')
      × Ready (tick_current s') (
          count running (record p {
            running = wake_up (due (ticked p.sleepers)) running;
            sleepers = asleep (ticked p.sleepers);
            doomed = [];
          }))

  ticks :
      (running : List ℕ)
      → InMemory s s.current_task (record p { running = running })
      → (s.current_task ≡ 0 → s.switched_task ≡ 0)
      → (s.current_task ≢ 0 → (s.tasks s.current_task).remaining_ticks ≡ p.quantum)
      → Valid running p.sleepers p.doomed
      → length p.sleepers < fuel
      → Ticks running
  ticks [] h idle q v lt =
      let (s', t, w) =
        tick_idle fuel (record s { doomed_task = 0 }) p.sleepers h.runs (idle h.runs) h.queue
          v.on_time lt in
      let none : s'.current_task ≡ 0 = w.undisturbed.current_task ∙ h.runs in
      let first : s'.switched_task ≡ leader s' = ground (arith, w.on, none) in
      (
        s',
        t,
        subst
            (λ t'. Ready t' (
              begin (record p {
                running = wake_up (due (ticked p.sleepers)) [];
                sleepers = asleep (ticked p.sleepers);
                doomed = [];
              })))
            (sym (idle_after s' none))
            (record {
              lists = record {
                runs =
                    subst (λ a. Runs s'.tasks a (wake_up (due (ticked p.sleepers)) [])) first
                      w.runs;
                queue = w.queue;
                doomed = w.undisturbed.doomed_task;
                priority = λ a. w.undisturbed.priority a ∙ h.priority a;
              };
              idle = λ off z. w.on off;
              starts = λ on. refl;
              stays = λ off nz. absurd (nz none);
            }),
      )
  ticks (b ∷ rs) h idle q v lt =
      let xs = p.sleepers in
      let nz : s.current_task ≢ 0 = ground (arith, h.runs.0, v.no_null) in
      let here = subst (λ a. RunRing s.tasks a rs) (sym h.runs.0) h.runs.1 in
      let (s', t, w) =
        tick_sleeping_lem fuel (record s { doomed_task = 0 }) s.current_task rs xs (nz, inl refl)
          here h.queue (λ a i. v.awake a (ground (arith, i, h.runs.0))) v.on_time lt in
      let same : s'.current_task ≡ b = w.undisturbed.current_task ∙ h.runs.0 in
      let woken = record p {
        running = s'.current_task ∷ awakened (due (ticked xs)) rs;
        sleepers = asleep (ticked xs);
        doomed = [];
      } in
      let lists : InMemory s' s'.current_task woken = record {
        runs = (
          refl,
          subst (λ a. RunRing s'.tasks a (awakened (due (ticked xs)) rs))
              (sym w.undisturbed.current_task) w.ring,
        );
        queue = w.queue;
        doomed = w.undisturbed.doomed_task;
        priority = λ a. w.undisturbed.priority a ∙ h.priority a;
      } in
      let awake : sleeps s.current_task xs ≡ false =
        v.awake s.current_task (ground (arith, h.runs.0)) in
      let left : (s'.tasks s'.current_task).remaining_ticks ≡ p.quantum =
        ap (λ a. (s'.tasks a).remaining_ticks) w.undisturbed.current_task
        ∙ w.remaining_ticks s.current_task awake
        ∙ q nz in
      let r =
        tick_current-Ready s' woken (awakened (due (ticked xs)) rs) lists
          (ground (arith, same, nz, h.runs.0)) left
          (sleeps-asleep s'.current_task (ticked xs) (
            sleeps-ticked s'.current_task xs
            ∙ ground (arith, awake, w.undisturbed.current_task))) in
      (
        s',
        t,
        subst
            (λ l. Ready (tick_current s') (
              count (b ∷ rs)
                (record p { running = l; sleepers = asleep (ticked xs); doomed = [] })))
            (ap (λ a. a ∷ awakened (due (ticked xs)) rs) same
              ∙ sym (wake_up-current (due (ticked xs)) b rs))
            r,
      )

pub sched_ms_tick-Ready :
    (fuel : ℕ) (s : Sched) (p : Plan)
    → Follows s p
    → IsValid p
    → length p.sleepers < fuel
    → length p.doomed < fuel
    → (r : List ℕ × Sched) × (sched_ms_tick fuel s ≡ some r)
      × (r.0 ≡ p.doomed)
      × Ready r.1 (plan_step tick p)
unfolding sched_ms_tick plan_step
sched_ms_tick-Ready fuel s p f v lt lt' =
    let (s', t, r) = ticks fuel s p p.running f.lists f.idle f.quantum v lt in
    let freed = doomed_from_lem fuel s.tasks s.doomed_task p.doomed f.lists.doomed lt' in
    ((p.doomed, tick_current s'), ground (arith, t, freed), refl, r)
