-- ===== src/Kernel/Semaphore/Lost.antt =====
-- What happens to the semaphore with the `sched_yield` of this kernel: kernel/src/arch/i386/sched/sleep.S
-- moves the time to sleep, 0, into `eax`, and interrupts.S beside it gives that back.
use n00b_os.Prelude.{ℕ, ◌≡◌, ◌≢◌, refl, sym, subst, arith}
use n00b_os.Kernel.Semaphore.Threads.{
  Pc, outside, yielding, holding, Move, enter, cmp_free, cmp_taken, sched_yield, xchg, got, release,
  System, move_to, pick, start, Reach, init, later,
}

module _ (yielded a b : ℕ) (an : a ≢ 0) (bn : b ≢ 0) (ne : a ≢ b) where
  -- a state can come about in which the lock is `lock` and the two threads stand at `p` and `q`
  record Duo (lock : ℕ) (p q : Pc) : Type 0 where
    s : System
    reach : Reach yielded s
    lock_is : s.lock ≡ lock
    first : s.pc a ≡ p
    second : s.pc b ≡ q

  nobody : Duo 0 outside outside
  nobody = record { s = start; reach = init; lock_is = refl; first = refl; second = refl }

  by_first :
      {lock lock' : ℕ} {p p' q : Pc}
      → Move yielded a lock p lock' p'
      → Duo lock p q
      → Duo lock' p' q
  by_first {lock} {lock'} {p} {p'} {q} m d = record {
    s = record { lock = lock'; pc = move_to d.s.pc a p' };
    reach =
        later d.reach
          (pick a an d.first (subst (λ l. Move yielded a l p lock' p') (sym d.lock_is) m));
    lock_is = refl;
    first = ground arith;
    second = ground (arith, d.second);
  }

  by_second :
      {lock lock' : ℕ} {p q q' : Pc}
      → Move yielded b lock q lock' q'
      → Duo lock p q
      → Duo lock' p q'
  by_second {lock} {lock'} {p} {q} {q'} m d = record {
    s = record { lock = lock'; pc = move_to d.s.pc b q' };
    reach =
        later d.reach
          (pick b bn d.second (subst (λ l. Move yielded b l q lock' q') (sym d.lock_is) m));
    lock_is = refl;
    first = ground (arith, d.first);
    second = ground arith;
  }

  first_holds : Duo a holding outside
  first_holds =
      by_first (got refl) (by_first xchg (by_first (cmp_free refl) (by_first enter nobody)))

  second_waits : Duo 0 outside yielding
  second_waits = by_first release (by_second (cmp_taken an) (by_second enter first_holds))

  second_holds : Duo yielded outside holding
  second_holds =
      by_second (got refl)
        (by_second xchg (by_second (cmp_free refl) (by_second sched_yield second_waits)))

  both : yielded ≡ 0 → Duo a holding holding
  both e = by_first (got e) (by_first xchg (by_first (cmp_free e) (by_first enter second_holds)))

-- With 0 in `eax` after `sched_yield`, a thread that had to wait swaps 0 into the lock and holds the
-- semaphore while it looks free: any two threads can come to hold it at once.
pub both_hold :
    (a b : ℕ)
    → a ≢ 0
    → b ≢ 0
    → a ≢ b
    → (s : System) × Reach 0 s × (s.pc a ≡ holding) × (s.pc b ≡ holding)
both_hold a b an bn ne = let d = both 0 a b an bn ne refl in (d.s, d.reach, d.first, d.second)
