-- ===== src/Kernel/Semaphore/Exclusion.antt =====
-- Mutual exclusion by the semaphore, until a thread that had to wait comes back.
use n00b_os.Prelude.{ℕ, ◌≡◌, ◌≢◌, refl, ap, Bool, true, false, arith, ◌==◌}
use n00b_os.Kernel.Semaphore.Threads.{
  Pc, outside, spin_lock, yielding, get_lock, tested, holding, Move, enter, cmp_free, cmp_taken,
  sched_yield, xchg, got, lost, release, System, move_to, pick, start, Reach, init, later,
}

-- between a successful `xchg` and the release
abbrev pub owns : Pc → Bool
owns (tested eax) = eax == 0
owns holding = true
owns _ = false

-- the register holds something to put into the lock
abbrev Ready : Pc → Type 0
Ready (spin_lock eax) = eax ≢ 0
Ready (get_lock eax) = eax ≢ 0
Ready _ = Unit

record IsExclusive (s : System) : Type 0 where
  ready : (i : ℕ) → Ready (s.pc i)
  locked : (i : ℕ) → owns (s.pc i) ≡ true → s.lock ≢ 0
  one_owner : (i j : ℕ) → owns (s.pc i) ≡ true → owns (s.pc j) ≡ true → i ≡ j

start-IsExclusive : IsExclusive start
start-IsExclusive = record { ready = λ i. tt; locked = λ i h. cc; one_owner = λ i j h k. cc }

module _ {s : System} (tid : ℕ) {p : Pc} (e : s.pc tid ≡ p) (x : IsExclusive s) where
  -- a step that leaves the lock alone and makes no owner
  quiet :
      (p' : Pc)
      → Ready p'
      → (owns p' ≡ true → owns p ≡ true)
      → IsExclusive (record { lock = s.lock; pc = move_to s.pc tid p' })
  quiet p' r o = record {
    ready = λ i. ground (arith, x.ready i);
    locked = λ i h. ground (arith, x.locked i, x.locked tid);
    one_owner = λ i j h k. ground (arith, x.one_owner i j, x.one_owner i tid, x.one_owner tid j);
  }

  -- the lock is swapped with a register
  swap :
      (eax : ℕ)
      → eax ≢ 0
      → owns p ≡ false
      → IsExclusive (record { lock = eax; pc = move_to s.pc tid (tested s.lock) })
  swap eax r o = record {
    ready = λ i. ground (arith, x.ready i);
    locked = λ i h. r;
    one_owner = λ i j h k. ground (arith, x.one_owner i j, x.locked i, x.locked j);
  }

  -- the one owner lets go
  let_go : owns p ≡ true → IsExclusive (record { lock = 0; pc = move_to s.pc tid outside })
  let_go o = record {
    ready = λ i. ground (arith, x.ready i);
    locked = λ i h. ground (arith, x.one_owner i tid);
    one_owner = λ i j h k. ground (arith, x.one_owner i tid);
  }

-- The instruction is not the return from `sched_yield`.
abbrev NoReturn :
    {yielded tid lock lock' : ℕ} {p p' : Pc} → Move yielded tid lock p lock' p' → Type 0
NoReturn sched_yield = ⊥
NoReturn _ = Unit

-- On the way to a state, no thread has come back from `sched_yield`.
abbrev pub Unwaited : {yielded : ℕ} {s : System} → Reach yielded s → Type 0
Unwaited init = Unit
Unwaited (later r (pick tid tn e m)) = NoReturn m × Unwaited r

Move-IsExclusive :
    (yielded : ℕ) {s : System} {tid lock' : ℕ} {p p' : Pc}
    → tid ≢ 0
    → s.pc tid ≡ p
    → (m : Move yielded tid s.lock p lock' p') → NoReturn m
    → IsExclusive s
    → IsExclusive (record { lock = lock'; pc = move_to s.pc tid p' })
Move-IsExclusive yielded {s} {tid} tn e enter never x = quiet tid e x (spin_lock tid) tn cc
Move-IsExclusive yielded {s} {tid} tn e (cmp_free {eax} h) never x =
    quiet tid e x (get_lock eax) (ground (arith, x.ready tid)) cc
Move-IsExclusive yielded {s} {tid} tn e (cmp_taken h) never x = quiet tid e x yielding tt cc
Move-IsExclusive yielded {s} {tid} tn e sched_yield never x = absurd never
Move-IsExclusive yielded {s} {tid} tn e (xchg {eax}) never x =
    swap tid e x eax (ground (arith, x.ready tid)) refl
Move-IsExclusive yielded {s} {tid} tn e (got h) never x =
    quiet tid e x holding tt (λ o. ground arith)
Move-IsExclusive yielded {s} {tid} tn e (lost {eax} h) never x = quiet tid e x (spin_lock eax) h cc
Move-IsExclusive yielded {s} {tid} tn e release never x = let_go tid e x refl

Reach-IsExclusive : (yielded : ℕ) {s : System} (r : Reach yielded s) → Unwaited r → IsExclusive s
Reach-IsExclusive yielded init u = start-IsExclusive
Reach-IsExclusive yielded (later r (pick tid tn e m)) u =
    Move-IsExclusive yielded tn e m u.0 (Reach-IsExclusive yielded r u.1)

-- As long as no thread has come back from `sched_yield` in `semaphore_acquire`, no thread holds the semaphore
-- while another does, whatever the order of their instructions and whatever `sched_yield` leaves in `eax`.
pub holding_alone :
    (yielded : ℕ) {s : System} (i j : ℕ) (r : Reach yielded s)
    → Unwaited r
    → i ≢ j
    → s.pc i ≡ holding
    → s.pc j ≢ holding
holding_alone yielded {s} i j r u ne h k =
    let x = Reach-IsExclusive yielded r u in ne (x.one_owner i j (ap owns h) (ap owns k))
