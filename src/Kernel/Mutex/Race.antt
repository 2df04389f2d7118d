-- ===== src/Kernel/Mutex/Race.antt =====
-- Two threads between the test and the swap of `mutex_acquire`.
use n00b_os.Prelude.{ℕ, ◌≡◌, ◌≢◌, refl, sym, subst, arith}
use n00b_os.Kernel.Mutex.Threads.{
  Pc, outside, spin_lock, get_lock, holding, Move, enter, ours, other, cmp_free, xchg, got, lost,
  movw, incw, release, unlocks, System, move_to, pick, start, Reach, init, later,
}

module _ (yielded a b : ℕ) (an : a ≢ 0) (bn : b ≢ 0) (ne : a ≢ b) where
  -- a state can come about with this mutex, in which the two threads stand at `p` and `q`
  record Duo (lock level : ℕ) (p q : Pc) : Type 0 where
    s : System
    reach : Reach yielded s
    mutex_is : s.mutex ≡ record { lock = lock; level = level }
    first : s.pc a ≡ p
    second : s.pc b ≡ q

  nobody : Duo 0 0 outside outside
  nobody = record { s = start; reach = init; mutex_is = refl; first = refl; second = refl }

  by_first :
      {lock level lock' level' : ℕ} {p p' q : Pc}
      → Move yielded a
          (record { lock = lock; level = level })
          p
          (record { lock = lock'; level = level' })
          p'
      → Duo lock level p q
      → Duo lock' level' p' q
  by_first {lock} {level} {lock'} {level'} {p} {p'} {q} m d = record {
    s = record { mutex = record { lock = lock'; level = level' }; pc = move_to d.s.pc a p' };
    reach = later d.reach (
        pick a an d.first (
          subst (λ x. Move yielded a x p (record { lock = lock'; level = level' }) p')
            (sym d.mutex_is) m));
    mutex_is = refl;
    first = ground arith;
    second = ground (arith, d.second);
  }

  by_second :
      {lock level lock' level' : ℕ} {p q q' : Pc}
      → Move yielded b
          (record { lock = lock; level = level })
          q
          (record { lock = lock'; level = level' })
          q'
      → Duo lock level p q
      → Duo lock' level' p q'
  by_second {lock} {level} {lock'} {level'} {p} {q} {q'} m d = record {
    s = record { mutex = record { lock = lock'; level = level' }; pc = move_to d.s.pc b q' };
    reach = later d.reach (
        pick b bn d.second (
          subst (λ x. Move yielded b x q (record { lock = lock'; level = level' }) q')
            (sym d.mutex_is) m));
    mutex_is = refl;
    first = ground (arith, d.first);
    second = ground arith;
  }

  both_see_free : Duo 0 0 (get_lock a) (get_lock b)
  both_see_free = by_second (cmp_free refl) (
      by_second (other (ground arith)) (
        by_second enter
          (by_first (cmp_free refl) (by_first (other (ground arith)) (by_first enter nobody)))))

  second_holds : Duo b 1 (get_lock a) holding
  second_holds =
      by_second incw (by_second movw (by_second (got refl) (by_second xchg both_see_free)))

  first_loses : Duo 0 0 (spin_lock b) outside
  first_loses =
      by_second unlocks (by_second (release refl) (by_first (lost bn) (by_first xchg second_holds)))

  -- The first thread takes the mutex in the second one's name.
  first_holds : Duo b 1 holding outside
  first_holds = by_first incw (
      by_first movw (
        by_first (got refl)
          (by_first xchg (by_first (cmp_free refl) (by_first (other (ground arith)) first_loses)))))

  both : Duo b 2 holding holding
  both = by_second incw (by_second (ours refl) (by_second enter first_holds))

-- A thread that is interrupted between the test of the lock and the swap loses its identifier in the
-- swap and goes on with that of the thread that came first: any two threads can come to hold the
-- mutex at once, whatever `sched_yield` leaves in `eax`.
pub both_hold_mutex :
    (yielded a b : ℕ)
    → a ≢ 0
    → b ≢ 0
    → a ≢ b
    → (s : System) × Reach yielded s × (s.pc a ≡ holding) × (s.pc b ≡ holding)
both_hold_mutex yielded a b an bn ne =
    let d = both yielded a b an bn ne in (d.s, d.reach, d.first, d.second)
