-- ===== src/Libk/Threads/Tests.antt =====
-- Two threads.
use n00b_os.Prelude.{◌≡◌, arith, ◌==◌}
use n00b_os.Libk.Threads.{thrd_equal}
use n00b_os.Libk.Threads.Laws.{thrd_equal_lem}

thrd_equal_lem_test : (thrd_equal 3 5 == 0) ≡ (3 == 5)
thrd_equal_lem_test = thrd_equal_lem 3 5 (omega arith) (omega arith)
