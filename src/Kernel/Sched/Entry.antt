-- ===== src/Kernel/Sched/Entry.antt =====
-- interrupts.S, sleep.S and exit.S of kernel/src/arch/i386/sched: how the kernel is entered to switch tasks. `ss` and
-- `esp` are those of the task that is interrupted; the page directory and the new `ss` and `esp` are
-- in the result. `pic_send_eoi` only tells the interrupt controller.

pub mod Follows
pub mod Leave
pub mod Tick
pub mod Count
pub mod Refine
pub mod Sleeper
pub mod Starve
mod Tests
use n00b_os.Prelude.{ℕ, Option, none, some, List, [], ◌∷◌, length}
use n00b_os.Kernel.Sched.{
  Task, Sched, set_task, sched_ms_tick, sched_park_task, sched_kill_task, sched_switch_next_task,
  put_in_schedule_ring,
}
use n00b_os.Kernel.Sched.Plan.{Event, tick, sleep, exit}
use mathlib.Core.Option

-- the tasks that are freed are left out
pub irq0_handler : ℕ → Sched → ℕ → ℕ → Option (Sched × ℕ × ℕ × ℕ)
irq0_handler fuel s ss esp =
    Option.map (λ (freed, s'). sched_switch_next_task s' ss esp) (sched_ms_tick fuel s)

pub int50_handler : ℕ → Sched → ℕ → ℕ → ℕ → Option (Sched × ℕ × ℕ × ℕ)
int50_handler fuel s eax ss esp =
    Option.map (λ s'. sched_switch_next_task s' ss esp) (sched_park_task fuel s eax)

pub int51_handler : Sched → ℕ → ℕ → Sched × ℕ × ℕ × ℕ
int51_handler s ss esp = sched_switch_next_task (sched_kill_task s) ss esp

-- sleep.S: `int $50` with the duration in eax
pub sched_sleep : ℕ → Sched → ℕ → ℕ → ℕ → Option (Sched × ℕ × ℕ × ℕ)
unfolding int50_handler
sched_sleep fuel s ms ss esp = int50_handler fuel s ms ss esp

pub sched_yield : ℕ → Sched → ℕ → ℕ → Option (Sched × ℕ × ℕ × ℕ)
unfolding sched_sleep
sched_yield fuel s ss esp = sched_sleep fuel s 0 ss esp

-- exit.S: `int $51`; the result value is not used.
pub sched_exit : Sched → ℕ → ℕ → Sched × ℕ × ℕ × ℕ
unfolding int51_handler
sched_exit s ss esp = int51_handler s ss esp

-- what an entry does with the scheduler
pub handle : ℕ → Event → ℕ → ℕ → Sched → Option Sched
unfolding irq0_handler sched_sleep sched_exit
handle fuel tick ss esp s = Option.map (λ r. r.0) (irq0_handler fuel s ss esp)
handle fuel (sleep ms) ss esp s = Option.map (λ r. r.0) (sched_sleep fuel s ms ss esp)
handle fuel exit ss esp s = some (sched_exit s ss esp).0

-- Entries one after the other. `frames n` holds the `ss` and `esp` of the one that `n` others follow.
pub handle_all : ℕ → (ℕ → ℕ × ℕ) → List Event → Sched → Option Sched
unfolding handle
handle_all fuel frames [] s = some s
handle_all fuel frames (e ∷ es) s =
    let (ss, esp) = frames (length es) in
    elim (handle fuel e ss esp s) [ none ↦ none | some s' ↦ handle_all fuel frames es s' ]
