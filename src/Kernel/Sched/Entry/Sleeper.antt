-- ===== src/Kernel/Sched/Entry/Sleeper.antt =====
-- A task that sleeps comes to run when its time is over.
use n00b_os.Prelude.{ℕ, ◌≡◌, true}
use n00b_os.Kernel.Links.{has}
use n00b_os.Kernel.Sched.{Sched}
use n00b_os.Kernel.Sched.Plan.{Plan, tick, plan_step}
use n00b_os.Kernel.Sched.Plan.Sleeping.{SleepsFor}
use n00b_os.Kernel.Sched.Entry.Follows.{Follows}

-- `a` sleeps in the first state, and in the second, a tick later, it runs.
pub record Awakened (a : ℕ) (before after : Sched) (plan : Plan) : Type 0 where
  pub before_Follows : Follows before plan
  pub asleep : SleepsFor a 1 plan
  pub after_Follows : Follows after (plan_step tick plan)
  pub runs : has a (plan_step tick plan).running ≡ true
