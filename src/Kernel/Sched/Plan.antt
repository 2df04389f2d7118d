-- ===== src/Kernel/Sched/Plan.antt =====
-- What the scheduler does, without its pointers: the lists of the tasks that run, sleep and are to be
-- freed, and how each entry of the kernel changes them.
pub mod Valid
pub mod Keeps
pub mod Size
pub mod Sleeping
use n00b_os.Prelude.{
  ℕ, ◌+◌, ◌^◌, ◌<◌, ◌≡◌, ◌≢◌, Bool, true, false, List, [], ◌∷◌, ◌++◌, ◌==◌, if◌then◌else◌,
}
use n00b_os.Kernel.Links.{◌∉◌}
use n00b_os.Kernel.Sched.{Task, decrement}
use n00b_os.Kernel.Sched.Queue.{Sleepers, sleeps, insert_sleeper}
use n00b_os.Kernel.Sched.Wake.{due, asleep, awakened, ticked}

-- Nobody runs while the kernel is idle. `quantum` is what the current task has left.
pub record Plan : Type 0 where
  -- the current task first, then in the order of their turns
  pub running : List ℕ
  pub quantum : ℕ
  pub priority : ℕ → ℕ
  pub sleepers : Sleepers
  pub doomed : List ℕ

-- how the kernel is entered to switch tasks
pub data Event : Type 0 where
  tick : Event
  sleep : (ms : ℕ) → Event
  exit : Event

abbrev pub rotate : List ℕ → List ℕ
rotate [] = []
rotate (c ∷ rs) = rs ++ (c ∷ [])

-- tasks that wake come behind the current one, the last of them first
abbrev pub wake_up : List ℕ → List ℕ → List ℕ
wake_up [] rs = rs
wake_up (a ∷ woken) [] = a ∷ awakened woken []
wake_up (a ∷ woken) (c ∷ rs) = c ∷ awakened (a ∷ woken) rs

abbrev pub first_quantum : (ℕ → ℕ) → List ℕ → ℕ
first_quantum priority [] = 0
first_quantum priority (c ∷ rs) = priority c

-- whoever comes first gets a new quantum
abbrev pub begin : Plan → Plan
begin p = record p { quantum = first_quantum p.priority p.running }

abbrev pub time_passes : Plan → Plan
time_passes p = record p {
  running = wake_up (due (ticked p.sleepers)) p.running;
  sleepers = asleep (ticked p.sleepers);
  doomed = [];
}

-- a tick for the tasks that ran before it, with the plan in which sleepers have woken
abbrev pub count : List ℕ → Plan → Plan
count [] woken = begin woken
count (c ∷ rs) woken =
    if decrement woken.quantum == 0
    then begin (record woken { running = rotate woken.running })
    else record woken { quantum = decrement woken.quantum }

abbrev pub put_to_sleep : ℕ → Plan → List ℕ → Plan
put_to_sleep ms p [] = p
put_to_sleep ms p (c ∷ rs) =
    if ms == 0
    then begin (record p { running = rs ++ (c ∷ []) })
    else begin (record p { running = rs; sleepers = insert_sleeper c ms p.sleepers })

abbrev pub take_out : Plan → List ℕ → Plan
take_out p [] = p
take_out p (c ∷ rs) = begin (record p { running = rs; doomed = c ∷ p.doomed })

unfoldable pub plan_step : Event → Plan → Plan
plan_step tick p = count p.running (time_passes p)
plan_step (sleep ms) p = put_to_sleep ms p p.running
plan_step exit p = take_out p p.running

-- The idle task does not call the kernel.
abbrev pub Allowed : Event → Plan → Type 0
Allowed tick p = Unit
Allowed (sleep ms) p = (p.running ≢ []) × (ms < 2 ^ 32)
Allowed exit p = p.running ≢ []

-- the plan after some events, each allowed where it happens
abbrev pub plan_run : List Event → Plan → Plan
plan_run [] p = p
plan_run (e ∷ es) p = plan_run es (plan_step e p)

abbrev pub AllAllowed : List Event → Plan → Type 0
AllAllowed [] p = Unit
AllAllowed (e ∷ es) p = Allowed e p × AllAllowed es (plan_step e p)
