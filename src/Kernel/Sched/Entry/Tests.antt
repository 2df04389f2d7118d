-- ===== src/Kernel/Sched/Entry/Tests.antt =====
-- The tasks 10 and 20 run, and 30 sleeps for a tick or for 3.
use n00b_os.Prelude.{
  ℕ, ◌<◌, ◌≡◌, ◌⊎◌, refl, false, some, List, [], ◌∷◌, ◌++◌, arith, ◌==◌, if◌then◌else◌,
}
use n00b_os.Kernel.Sched.{Task, Sched}
use n00b_os.Kernel.Sched.RunRing.{RunRing}
use n00b_os.Kernel.Sched.Plan.{Plan, Event, tick, sleep, exit, plan_step, plan_run}
use n00b_os.Kernel.Sched.Plan.Valid.{IsValid}
use n00b_os.Kernel.Sched.Entry.{handle_all}
use n00b_os.Kernel.Sched.Entry.Follows.{Follows}
use n00b_os.Kernel.Sched.Entry.Starve.{naps, starved}

abbrev task : ℕ → ℕ → ℕ → Task
task next previous ticks = record {
  next = next;
  previous = previous;
  remaining_ticks = ticks;
  priority = 10;
  page_dir = 7;
  ss = 16;
  esp = 500;
}

-- `ms` is what 30 sleeps for
abbrev before : ℕ → Sched
before ms = record {
  tasks = λ a. if a == 10 then task 20 20 10 else if a == 20 then task 10 10 10 else task 0 0 ms;
  current_task = 10;
  switching = false;
  switched_task = 10;
  sleeping_task = 30;
  doomed_task = 0;
  idle_task = 40;
}

abbrev plan : ℕ → Plan
plan ms = record {
  running = 10 ∷ 20 ∷ [];
  quantum = 10;
  priority = λ a. 10;
  sleepers = (30, ms) ∷ [];
  doomed = [];
}

before-Follows : (ms : ℕ) → ms < 100 → Follows (before ms) (plan ms)
before-Follows ms lt = record {
  lists = record {
    runs = (refl, record { chain = ground arith; apart = refl; distinct = (refl, tt) });
    queue = (refl, omega arith, refl, omega arith, refl, refl);
    doomed = refl;
    priority = λ a. ground arith;
  };
  idle = λ e. ground (arith, e);
  quantum = λ e. refl;
}

plan-IsValid : (ms : ℕ) → 0 < ms → IsValid (plan ms)
plan-IsValid ms lt = record {
  distinct = (refl, tt);
  awake = λ a i. ground arith;
  alive = λ a i. refl;
  sleeping_alive = λ a i. refl;
  no_null = refl;
  no_null_sleeps = refl;
  distinct_running = (refl, (refl, tt));
  on_time = ground arith;
}

-- 10 ends, which leaves 20 current; it sleeps for 2 ticks, and 30 wakes.
abbrev events : List Event
events = tick ∷ exit ∷ tick ∷ sleep 2 ∷ tick ∷ []

plan_run-events : (plan_run events (plan 3)).running ≡ 30 ∷ []
unfolding plan_step
plan_run-events = refl

starved_example :
    (s' : Sched) × (others : List ℕ) × (handle_all 20 (λ n. (16, 900)) (naps 7) (before 1)
      ≡ some s')
    × ((s'.current_task ≡ 10) ⊎ (s'.current_task ≡ 30))
    × RunRing s'.tasks s'.current_task (others ++ (20 ∷ []))
starved_example =
    starved 20 (λ n. (16, 900)) 7 10 30 10 (λ a. 10) (20 ∷ []) [] (before 1)
      (before-Follows 1 (omega arith)) (plan-IsValid 1 (omega arith)) (omega arith, omega arith)
      (omega arith, omega arith) (omega arith, omega arith) (omega arith)
