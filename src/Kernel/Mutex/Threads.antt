-- ===== src/Kernel/Mutex/Threads.antt =====
-- kernel/src/arch/i386/sync/mutex.c, an instruction at a time, for threads that are interleaved in any
-- order. A thread is known by its identifier, which is not 0, and `eax` is its register.
use n00b_os.Prelude.{ℕ, ◌+◌, ◌-◌, ◌%◌, ◌^◌, ◌≡◌, ◌≢◌, ◌==◌, if◌then◌else◌}
use n00b_os.Kernel.Mutex.{Mutex}

-- where a thread stands in `mutex_acquire` or `mutex_release`, or between them
pub data Pc : Type 0 where
  outside : Pc
  spin_lock : (eax : ℕ) → Pc
  not_ours : (eax : ℕ) → Pc
  yielding : Pc
  get_lock : (eax : ℕ) → Pc
  tested : (eax : ℕ) → Pc
  no_level : Pc
  got_lock : Pc
  holding : Pc
  unlock : Pc

abbrev inc : ℕ → ℕ
inc level = (level + 1) % 2 ^ 16

abbrev pub dec : ℕ → ℕ
dec level = (level + 2 ^ 16 - 1) % 2 ^ 16

-- One instruction of a thread, with the mutex before and after. `yielded` is what `sched_yield`
-- leaves in `eax`.
pub data Move (yielded tid : ℕ) (m : Mutex) : Pc → Mutex → Pc → Type 0 where
  enter : Move yielded tid m outside m (spin_lock tid)
  ours : {eax : ℕ} → m.lock ≡ eax → Move yielded tid m (spin_lock eax) m got_lock
  other : {eax : ℕ} → m.lock ≢ eax → Move yielded tid m (spin_lock eax) m (not_ours eax)
  cmp_free : {eax : ℕ} → m.lock ≡ 0 → Move yielded tid m (not_ours eax) m (get_lock eax)
  cmp_taken : {eax : ℕ} → m.lock ≢ 0 → Move yielded tid m (not_ours eax) m yielding
  sched_yield : Move yielded tid m yielding m (spin_lock yielded)
  xchg : {eax : ℕ} → Move yielded tid m (get_lock eax) (record m { lock = eax }) (tested m.lock)
  got : {eax : ℕ} → eax ≡ 0 → Move yielded tid m (tested eax) m no_level
  lost : {eax : ℕ} → eax ≢ 0 → Move yielded tid m (tested eax) m (spin_lock eax)
  movw : Move yielded tid m no_level (record m { level = 0 }) got_lock
  incw : Move yielded tid m got_lock (record m { level = inc m.level }) holding
  release : dec m.level ≡ 0 → Move yielded tid m holding (record m { level = dec m.level }) unlock
  keep : dec m.level ≢ 0 → Move yielded tid m holding (record m { level = dec m.level }) outside
  unlocks : Move yielded tid m unlock (record m { lock = 0 }) outside

pub record System : Type 0 where
  pub mutex : Mutex
  pub pc : ℕ → Pc

abbrev pub move_to : (ℕ → Pc) → ℕ → Pc → ℕ → Pc
move_to pc tid p i = if i == tid then p else pc i

-- a step of one of the threads
pub data Step (yielded : ℕ) (s : System) : System → Type 0 where
  pick :
      (tid : ℕ) {p p' : Pc} {m : Mutex}
      → tid ≢ 0
      → s.pc tid ≡ p
      → Move yielded tid s.mutex p m p'
      → Step yielded s (record { mutex = m; pc = move_to s.pc tid p' })

-- MUTEX_INIT, with no thread near it
abbrev pub start : System
start = record { mutex = record { lock = 0; level = 0 }; pc = λ tid. outside }

pub data Reach (yielded : ℕ) : System → Type 0 where
  init : Reach yielded start
  later : {s s' : System} → Reach yielded s → Step yielded s s' → Reach yielded s'
