-- ===== src/Kernel/Semaphore/Threads.antt =====
-- kernel/src/arch/i386/sync/semaphore.c, an instruction at a time, for threads that are interleaved in
-- any order. A thread is known by its identifier, which is not 0, and `eax` is its register.
use n00b_os.Prelude.{ℕ, ◌≡◌, ◌≢◌, ◌==◌, if◌then◌else◌}

-- where a thread stands in `semaphore_acquire`, or between it and `semaphore_release`
pub data Pc : Type 0 where
  outside : Pc
  spin_lock : (eax : ℕ) → Pc
  yielding : Pc
  get_lock : (eax : ℕ) → Pc
  tested : (eax : ℕ) → Pc
  holding : Pc

-- One instruction of a thread, with `lock` before and after. `yielded` is what `sched_yield` leaves
-- in `eax`.
pub data Move (yielded tid lock : ℕ) : Pc → ℕ → Pc → Type 0 where
  enter : Move yielded tid lock outside lock (spin_lock tid)
  cmp_free : {eax : ℕ} → lock ≡ 0 → Move yielded tid lock (spin_lock eax) lock (get_lock eax)
  cmp_taken : {eax : ℕ} → lock ≢ 0 → Move yielded tid lock (spin_lock eax) lock yielding
  sched_yield : Move yielded tid lock yielding lock (spin_lock yielded)
  xchg : {eax : ℕ} → Move yielded tid lock (get_lock eax) eax (tested lock)
  got : {eax : ℕ} → eax ≡ 0 → Move yielded tid lock (tested eax) lock holding
  lost : {eax : ℕ} → eax ≢ 0 → Move yielded tid lock (tested eax) lock (spin_lock eax)
  release : Move yielded tid lock holding 0 outside

pub record System : Type 0 where
  pub lock : ℕ
  pub pc : ℕ → Pc

abbrev pub move_to : (ℕ → Pc) → ℕ → Pc → ℕ → Pc
move_to pc tid p i = if i == tid then p else pc i

-- a step of one of the threads
pub data Step (yielded : ℕ) (s : System) : System → Type 0 where
  pick :
      (tid : ℕ) {p p' : Pc} {lock' : ℕ}
      → tid ≢ 0
      → s.pc tid ≡ p
      → Move yielded tid s.lock p lock' p'
      → Step yielded s (record { lock = lock'; pc = move_to s.pc tid p' })

-- SEMAPHORE_INIT, with no thread near it
abbrev pub start : System
start = record { lock = 0; pc = λ tid. outside }

pub data Reach (yielded : ℕ) : System → Type 0 where
  init : Reach yielded start
  later : {s s' : System} → Reach yielded s → Step yielded s s' → Reach yielded s'
