-- ===== src/Libk/Threads/Laws.antt =====
-- What `thrd_equal` tells.
use n00b_os.Prelude.{ℕ, ◌<◌, ◌^◌, ◌≡◌, arith, ◌==◌}
use n00b_os.Libk.Threads.{thrd_equal}

-- `thrd_equal` of two thread identifiers is 0 exactly where they are the same.
pub thrd_equal_lem :
    (lhs rhs : ℕ) → lhs < 2 ^ 32 → rhs < 2 ^ 32 → (thrd_equal lhs rhs == 0) ≡ (lhs == rhs)
unfolding thrd_equal
thrd_equal_lem lhs rhs l r = ground arith
