-- ===== src/Libk/Strings/Same.antt =====
-- When `strcmp` finds two strings equal.
use n00b_os.Prelude.{
  ℕ, ◌+◌, ◌<◌, ◌≡◌, refl, Bool, true, false, ◌&&◌, some, List, [], ◌∷◌, arith, length, ◌==◌, ℤ,
  is_zero,
}
use n00b_os.Libk.Memory.{Memory}
use n00b_os.Libk.Strings.{strcmp}
use n00b_os.Libk.Strings.Laws.{IsString, difference, strcmp-difference}

abbrev pub same_name : List ℕ → List ℕ → Bool
same_name [] [] = true
same_name [] (d ∷ ds) = false
same_name (c ∷ cs) [] = false
same_name (c ∷ cs) (d ∷ ds) = (c == d) && same_name cs ds

difference-same_name :
    (m : Memory) (p q : ℕ) (cs ds : List ℕ)
    → IsString m p cs
    → IsString m q ds
    → is_zero (difference cs ds) ≡ same_name cs ds
unfolding difference
difference-same_name m p q [] [] h k = refl
difference-same_name m p q [] (d ∷ ds) h k = ground (arith, k.1)
difference-same_name m p q (c ∷ cs) [] h k = ground (arith, h.1)
difference-same_name m p q (c ∷ cs) (d ∷ ds) h k =
    ground (arith, difference-same_name m (p + 1) (q + 1) cs ds h.2 k.2)

-- `strcmp` returns 0 exactly for the same strings.
pub strcmp-same_name :
    (fuel : ℕ) (m : Memory) (lhs rhs : ℕ) (cs ds : List ℕ)
    → IsString m lhs cs
    → IsString m rhs ds
    → length cs < fuel
    → (n : ℤ) × (strcmp fuel m lhs rhs ≡ some n) × (is_zero n ≡ same_name cs ds)
strcmp-same_name fuel m lhs rhs cs ds h k lt = (
  difference cs ds,
  strcmp-difference fuel m lhs rhs cs ds h k lt,
  difference-same_name m lhs rhs cs ds h k,
)
