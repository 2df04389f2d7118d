-- ===== src/Kernel/Semaphore/Tests.antt =====
-- Two threads, 1 and 2.
use n00b_os.Prelude.{◌≡◌, ◌≢◌, refl, arith}
use n00b_os.Kernel.Semaphore.Threads.{
  Pc, holding, enter, cmp_free, cmp_taken, xchg, got, System, move_to, pick, start, Reach, init,
  later,
}
use n00b_os.Kernel.Semaphore.Exclusion.{holding_alone}
use n00b_os.Kernel.Semaphore.Lost.{both_hold}

-- The thread 1 holds the semaphore, and the thread 2 finds it taken.
abbrev taken : System
taken = record {
  lock = 1;
  pc =
      move_to
        (move_to
          (move_to
            (move_to (move_to (move_to start.pc 1 (Pc.spin_lock 1)) 1 (Pc.get_lock 1)) 1
              (Pc.tested 0))
            1 holding)
          2 (Pc.spin_lock 2))
        2 Pc.yielding;
}

abbrev taken-Reach : Reach 0 taken
taken-Reach =
    later
      (later
        (later
          (later
            (later (later init (pick 1 (omega arith) refl enter))
              (pick 1 (omega arith) refl (cmp_free refl)))
            (pick 1 (omega arith) refl xchg))
          (pick 1 (omega arith) refl (got refl)))
        (pick 2 (omega arith) refl enter))
      (pick 2 (omega arith) refl (cmp_taken (omega arith)))

holding_alone_example : taken.pc 2 ≢ holding
holding_alone_example =
    holding_alone 0 1 2 taken-Reach (tt, (tt, (tt, (tt, (tt, (tt, tt)))))) (omega arith) refl

both_hold_example : (s : System) × Reach 0 s × (s.pc 1 ≡ holding) × (s.pc 2 ≡ holding)
both_hold_example = both_hold 1 2 (omega arith) (omega arith) (omega arith)
