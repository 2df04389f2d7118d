-- ===== src/Kernel/Mutex.antt =====
-- kernel/src/arch/i386/sync/mutex.c, the reentrant mutex, seen by the one thread that runs.
pub mod Nested
pub mod Threads
pub mod Race
mod Tests
use n00b_os.Prelude.{ℕ, zero, suc, ◌+◌, ◌-◌, ◌%◌, ◌^◌, Option, none, some, ◌==◌, if◌then◌else◌}

-- `struct mutex`: the holder's thread id, or 0, and how often it is held
pub record Mutex : Type 0 where
  pub lock : ℕ
  pub level : ℕ

-- One pass of the loop at `spin_lock`. `none`: another thread holds the mutex, so the thread yields and
-- comes back to the loop.
pub mutex_acquire : ℕ → Mutex → Option Mutex
mutex_acquire tid m =
    if m.lock == tid
    then some (record m { level = (m.level + 1) % 2 ^ 16 })
    else if m.lock == 0
    then some (record { lock = tid; level = 1 })
    else none

pub mutex_release : Mutex → Mutex
mutex_release m =
    let level = (m.level + 2 ^ 16 - 1) % 2 ^ 16 in
    record { lock = if level == 0 then 0 else m.lock; level = level }
