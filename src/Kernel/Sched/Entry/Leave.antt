-- ===== src/Kernel/Sched/Entry/Leave.antt =====
-- `sched_park_task` and `sched_kill_task`, as steps of the plan.
use n00b_os.Prelude.{
  ℕ, ◌<◌, ◌^◌, ◌≡◌, refl, ◌∙◌, sym, ◌≢◌, true, some, List, [], ◌∷◌, ◌++◌, arith, if◌then◌else◌,
  subst, length,
}
use n00b_os.Kernel.Links.{has}
use n00b_os.Kernel.Sched.{Sched, sched_park_task, sched_kill_task}
use n00b_os.Kernel.Sched.Queue.{IsQueue, IsQueue-frame, insert_sleeper}
use n00b_os.Kernel.Sched.RunRing.{Runs, RunRing-Runs}
use n00b_os.Kernel.Sched.Park.{Scheduled, lie_down}
use n00b_os.Kernel.Sched.Kill.{
  Doomed, Doomed-frame, Doomed-null, sched_kill_task-Doomed, sched_kill_task-frame,
  sched_kill_task-priority, sched_kill_task-sleeping_task, sched_kill_task-switching,
}
use n00b_os.Kernel.Sched.Plan.{Plan, begin}
use n00b_os.Kernel.Sched.Plan.Valid.{Valid}
use n00b_os.Kernel.Sched.Entry.Follows.{InMemory, Ready}

-- The current task goes behind the others.
pub yield-Ready :
    (fuel : ℕ) (s : Sched) (p : Plan) (rs : List ℕ)
    → InMemory s s.current_task (record p { running = s.current_task ∷ rs })
    → (s' : Sched) × (sched_park_task fuel s 0 ≡ some s')
      × Ready s' (begin (record p { running = rs ++ (s.current_task ∷ []) }))
unfolding sched_park_task
yield-Ready fuel s p rs h = (
  record s { switching = true; switched_task = (s.tasks s.current_task).next },
  refl,
  record {
    lists = record {
      runs = RunRing-Runs s.tasks s.current_task rs h.runs.1;
      queue = h.queue;
      doomed = h.doomed;
      priority = h.priority;
    };
    idle = λ e. absurd (ground (arith, e));
    starts = λ e. refl;
    stays = λ e. absurd (ground (arith, e));
  },
)

pub nap-Ready :
    (fuel : ℕ) (s : Sched) (p : Plan) (ms : ℕ) (rs : List ℕ)
    → InMemory s s.current_task (record p { running = s.current_task ∷ rs })
    → Valid (s.current_task ∷ rs) p.sleepers p.doomed
    → ms ≢ 0
    → ms < 2 ^ 32
    → length p.sleepers < fuel
    → (s' : Sched) × (sched_park_task fuel s ms ≡ some s')
      × Ready s' (
          begin (record p { running = rs; sleepers = insert_sleeper s.current_task ms p.sleepers }))
nap-Ready fuel s p ms rs h v nz b32 lt =
    let before : Scheduled s rs p.sleepers = record {
      ring = h.runs.1;
      queue = h.queue;
      none_both = v.awake;
      no_null = v.no_null;
    } in
    let (s', parked, laid) = lie_down fuel ms before nz b32 lt in
    let untouched : (a : ℕ) → has a p.doomed ≡ true → s'.tasks a ≡ s.tasks a = λ a i.
      laid.frame a (ground (arith, v.alive a)) (ground (arith, v.sleeping_alive a))
        (ground (arith, Doomed-null s.tasks s.doomed_task p.doomed h.doomed)) in
    (
      s',
      parked,
      record {
        lists = record {
          runs =
              subst (λ b. Runs s'.tasks (if b then s'.switched_task else s'.current_task) rs)
                (sym laid.switching) laid.runs;
          queue = laid.queue;
          doomed =
              subst (λ a. Doomed s'.tasks a p.doomed) (sym laid.doomed)
                (Doomed-frame s.tasks s'.tasks s.doomed_task p.doomed untouched h.doomed);
          priority = λ a. laid.priority a ∙ h.priority a;
        };
        idle = λ e. absurd (ground (arith, e, laid.switching));
        starts = λ e. refl;
        stays = λ e. absurd (ground (arith, e, laid.switching));
      },
    )

pub exit-Ready :
    (s : Sched) (p : Plan) (rs : List ℕ)
    → InMemory s s.current_task (record p { running = s.current_task ∷ rs })
    → Valid (s.current_task ∷ rs) p.sleepers p.doomed
    → Ready
        (sched_kill_task s)
        (begin (record p { running = rs; doomed = s.current_task ∷ p.doomed }))
exit-Ready s p rs h v =
    let s' = sched_kill_task s in
    let killed =
      sched_kill_task-Doomed s p.doomed h.runs.1 h.doomed v.alive (ground (arith, v.no_null)) in
    let on : s'.switching ≡ true = sched_kill_task-switching s in
    record {
      lists = record {
        runs =
            subst (λ b. Runs s'.tasks (if b then s'.switched_task else s'.current_task) rs) (sym on)
              killed.0;
        queue =
            subst (λ a. IsQueue s'.tasks a p.sleepers) (sym (sched_kill_task-sleeping_task s))
              (IsQueue-frame s.tasks s'.tasks s.sleeping_task p.sleepers
                (λ a i. sched_kill_task-frame s a h.runs.1 (ground (arith, v.awake a))) h.queue);
        doomed = killed.1;
        priority = λ a. sched_kill_task-priority s a ∙ h.priority a;
      };
      idle = λ e. absurd (ground (arith, e, on));
      starts = λ e. refl;
      stays = λ e. absurd (ground (arith, e, on));
    }
