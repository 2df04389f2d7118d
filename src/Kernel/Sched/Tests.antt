-- ===== src/Kernel/Sched/Tests.antt =====
-- The tasks 10 and 20 run, and 30 sleeps for 5 ticks.
use n00b_os.Prelude.{ℕ, ◌≡◌, refl, true, false, some, [], ◌∷◌, arith, ◌==◌, if◌then◌else◌}
use n00b_os.Kernel.Sched.{
  Task, Tasks, Sched, sched_park_task, sched_kill_task, tick_sleeping, sched_switch_next_task,
}
use n00b_os.Kernel.Sched.RunRing.{Runs, RunRing}
use n00b_os.Kernel.Sched.Ticks.{Awake, tick_sleeping-Awake}
use n00b_os.Kernel.Sched.Switch.{switch_back}
use n00b_os.Kernel.Sched.Park.{Scheduled, Parked, sched_park_task-Parked}
use n00b_os.Kernel.Sched.Kill.{Doomed, sched_kill_task-Doomed}

abbrev task : ℕ → ℕ → ℕ → Task
task next previous ticks = record {
  next = next;
  previous = previous;
  remaining_ticks = ticks;
  priority = 10;
  page_dir = 7;
  ss = 16;
  esp = 500;
}

abbrev tasks : Tasks
tasks a =
    if a == 10
    then task 20 20 10
    else if a == 20
    then task 10 10 10
    else if a == 30
    then task 0 0 5
    else task 0 0 0

abbrev two_run : Sched
two_run = record {
  tasks = tasks;
  current_task = 10;
  switching = false;
  switched_task = 10;
  sleeping_task = 30;
  doomed_task = 0;
  idle_task = 40;
}

two_run-RunRing : RunRing tasks 10 (20 ∷ [])
two_run-RunRing = record { chain = ground arith; apart = refl; distinct = (refl, tt) }

two_run-Scheduled : Scheduled two_run (20 ∷ []) ((30, 5) ∷ [])
two_run-Scheduled = record {
  ring = two_run-RunRing;
  queue = (refl, omega arith, refl, omega arith, refl, refl);
  none_both = λ a i. ground arith;
  no_null = refl;
}

sched_park_task-Parked_test :
    (s' : Sched) × (sched_park_task 2 two_run 3 ≡ some s')
    × Parked two_run s' 3 (20 ∷ []) ((30, 5) ∷ [])
sched_park_task-Parked_test =
    sched_park_task-Parked 2 3 two_run-Scheduled (omega arith) (omega arith) (omega arith)

sched_kill_task-Doomed_test :
    Runs (sched_kill_task two_run).tasks (sched_kill_task two_run).switched_task (20 ∷ [])
    × Doomed (sched_kill_task two_run).tasks (sched_kill_task two_run).doomed_task (10 ∷ [])
sched_kill_task-Doomed_test =
    sched_kill_task-Doomed two_run [] two_run-RunRing refl (λ a i. refl) (omega arith)

-- 30 sleeps for one tick more.
abbrev soon : Sched
soon = record two_run { tasks = λ a. if a == 30 then task 0 0 1 else tasks a }

soon-RunRing : RunRing soon.tasks 10 (20 ∷ [])
soon-RunRing = record { chain = ground arith; apart = refl; distinct = (refl, tt) }

tick_sleeping-Awake_test :
    (s' : Sched) × (tick_sleeping 2 soon ≡ some s') × Awake soon s' (30 ∷ 20 ∷ []) []
tick_sleeping-Awake_test =
    tick_sleeping-Awake 2 soon (20 ∷ []) ((30, 1) ∷ []) (omega arith) soon-RunRing
      (refl, omega arith, refl, omega arith, refl, refl) (λ b i. ground arith) refl (omega arith)

abbrev expired : Sched
expired = record two_run { switching = true; switched_task = 20 }

switch_back_example :
    let (s1, page_dir, ss1, esp1) = sched_switch_next_task expired 16 700 in
    let (s2, page_dir2, ss2, esp2) =
      sched_switch_next_task (record s1 { switched_task = 10 }) 16 800 in
    (s1.current_task ≡ 20)
    × (page_dir ≡ 7)
    × (ss1 ≡ 16)
    × (esp1 ≡ 500)
    × ((s1.tasks 20).remaining_ticks ≡ 10)
    × (s2.current_task ≡ 10)
    × (page_dir2 ≡ 7)
    × (ss2 ≡ 16)
    × (esp2 ≡ 700)
switch_back_example =
    switch_back expired 16 700 16 800 refl (omega arith) (omega arith) (omega arith)
