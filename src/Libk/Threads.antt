-- ===== src/Libk/Threads.antt =====
-- libk/src/all/threads: threads over the kernel's scheduler. An `int` is its 32 bits.
pub mod Laws
mod Tests
use n00b_os.Prelude.{ℕ, ◌+◌, ◌-◌, ◌%◌, ◌^◌, Option, none, some}
use n00b_os.Libk.Allocator.{Allocator}
use n00b_os.Kernel.Process.{ProcessControlBlock, priority_normal}
use n00b_os.Kernel.Sched.{Sched}
use n00b_os.Kernel.Sched.Entry.{sched_yield, sched_exit}
use n00b_os.Kernel.NewTask.{Machine, sched_new_thread}

pub thrd_equal : ℕ → ℕ → ℕ
thrd_equal lhs rhs = (lhs + 2 ^ 32 - rhs) % 2 ^ 32

-- `current` is the address of the current process control block.
pub thrd_current : (ℕ → ProcessControlBlock) → ℕ → ℕ
thrd_current pcbs current = (pcbs current).tid

abbrev thrd_success : ℕ
thrd_success = 0

-- The result, `*thr`, and what the scheduler leaves; `none` is a panic. `sched_exit` is the address of that
-- function.
pub thrd_create : (A : Allocator) → ℕ → ℕ → ℕ → ℕ → Machine A → Option (ℕ × ℕ × Machine A)
thrd_create A sched_exit current func arg m =
    elim (sched_new_thread A sched_exit current func arg priority_normal m) [
      | none ↦ none
      | some (thr, m') ↦ some (thrd_success, thr, m')
    ]

thrd_yield : ℕ → Sched → ℕ → ℕ → Option (Sched × ℕ × ℕ × ℕ)
thrd_yield fuel s ss esp = sched_yield fuel s ss esp

thrd_exit : Sched → ℕ → ℕ → Sched × ℕ × ℕ × ℕ
thrd_exit s ss esp = sched_exit s ss esp
