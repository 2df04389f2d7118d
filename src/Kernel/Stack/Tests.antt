-- ===== src/Kernel/Stack/Tests.antt =====
-- The bits 0 to 2 are set.
use n00b_os.Prelude.{ℕ, ◌^◌, ◌-◌, ◌<◌, ◌≡◌, ◌⊎◌, none, some, true, false, arith}
use n00b_os.Kernel.Stack.{is_set, find_free_bit}
use n00b_os.Kernel.Stack.Bits.{find_free_bit_lem}

find_free_bit_lem_test :
    ((find_free_bit 7 ≡ none) × (7 ≡ 2 ^ 32 - 1))
    ⊎ ((j : ℕ) × (find_free_bit 7 ≡ some j)
        × (j < 32)
        × (is_set 7 j ≡ false)
        × ((l : ℕ) → l < j → is_set 7 l ≡ true))
find_free_bit_lem_test = find_free_bit_lem 7 (omega arith)
