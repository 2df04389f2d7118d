-- ===== src/Kernel/Mutex/Tests.antt =====
-- Two threads, 1 and 2.
use n00b_os.Prelude.{◌≡◌, none, some, arith}
use n00b_os.Kernel.Mutex.{Mutex, mutex_acquire}
use n00b_os.Kernel.Mutex.Nested.{free_mutex, acquires, releases, nested}
use n00b_os.Kernel.Mutex.Threads.{holding, System, Reach}
use n00b_os.Kernel.Mutex.Race.{both_hold_mutex}

nested_example :
    (m : Mutex) × (acquires 3 1 free_mutex ≡ some m)
    × (m.lock ≡ 1)
    × (mutex_acquire 2 (releases 2 m) ≡ none)
nested_example =
    nested 3 2 1 2 (omega arith) (omega arith) (omega arith) (omega arith) (omega arith)

both_hold_mutex_example : (s : System) × Reach 9 s × (s.pc 1 ≡ holding) × (s.pc 2 ≡ holding)
both_hold_mutex_example = both_hold_mutex 9 1 2 (omega arith) (omega arith) (omega arith)
