-- ===== src/Kernel/Mutex/Nested.antt =====
-- Nested use of a mutex by one thread, which no other comes between.
use n00b_os.Prelude.{
  ℕ, zero, suc, ◌+◌, ◌-◌, ◌^◌, ◌<◌, ◌≤◌, ◌≡◌, ◌≢◌, Option, none, some, arith, ltb, ◌==◌,
  if◌then◌else◌,
}
use n00b_os.Kernel.Mutex.{Mutex, mutex_acquire, mutex_release}

-- MUTEX_INIT
abbrev pub free_mutex : Mutex
free_mutex = record { lock = 0; level = 0 }

unfoldable pub acquires : ℕ → ℕ → Mutex → Option Mutex
acquires zero tid m = some m
acquires (suc n) tid m = elim (mutex_acquire tid m) [ none ↦ none | some m' ↦ acquires n tid m' ]

unfoldable pub releases : ℕ → Mutex → Mutex
releases zero m = m
releases (suc n) m = releases n (mutex_release m)

-- held `level` times by `tid`
abbrev pub held : ℕ → ℕ → Mutex
held tid level = record { lock = if level == 0 then 0 else tid; level = level }

acquires-held :
    (n level tid : ℕ)
    → tid ≢ 0
    → level + n < 2 ^ 16
    → acquires n tid (held tid level) ≡ some (held tid (level + n))
unfolding acquires mutex_acquire
acquires-held zero level tid tn lt = ground arith
acquires-held (suc n) level tid tn lt = ground (arith, acquires-held n (level + 1) tid tn)

releases-held :
    (n level tid : ℕ)
    → n ≤ level
    → level < 2 ^ 16
    → releases n (held tid level) ≡ held tid (level - n)
unfolding releases mutex_release
releases-held zero level tid le lt = ground arith
releases-held (suc n) level tid le lt = ground (arith, releases-held n (level - 1) tid)

-- A thread that acquires the mutex `n` times, fewer than 2 ^ 16, holds it, and after `k` releases the
-- mutex refuses every other thread if `k < n`; if `k` is `n`, it lets the other in as a free one would.
pub nested :
    (n k tid other : ℕ)
    → tid ≢ 0
    → other ≢ tid
    → n < 2 ^ 16
    → k ≤ n
    → 0 < n
    → (m : Mutex) × (acquires n tid free_mutex ≡ some m)
      × (m.lock ≡ tid)
      × (mutex_acquire other (releases k m)
          ≡ (if ltb k n then none else mutex_acquire other free_mutex))
unfolding mutex_acquire
nested n k tid other tn on lt le pos = (
  held tid n,
  ground (arith, acquires-held n 0 tid),
  ground arith,
  ground (arith, releases-held k n tid),
)
