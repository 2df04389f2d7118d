-- ===== src/Kernel/Semaphore.antt =====
-- kernel/src/arch/i386/sync/semaphore.c, seen by the one thread that runs.
pub mod Threads
pub mod Exclusion
pub mod Lost
mod Tests
use n00b_os.Prelude.{ℕ, Option, none, some, ◌==◌, if◌then◌else◌}

-- `struct semaphore`: the holder's thread id, or 0
pub record Semaphore : Type 0 where
  pub lock : ℕ

-- One pass of the loop at `spin_lock`. `none`: the lock is taken, so the thread yields and comes
-- back to the loop.
unfoldable pub semaphore_acquire : ℕ → Semaphore → Option Semaphore
semaphore_acquire tid s = if s.lock == 0 then some (record { lock = tid }) else none

unfoldable pub semaphore_release : Semaphore → Semaphore
semaphore_release s = record { lock = 0 }
