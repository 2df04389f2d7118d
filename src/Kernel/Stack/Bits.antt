-- ===== src/Kernel/Stack/Bits.antt =====
-- The search for a free bit.
use n00b_os.Prelude.{
  ℕ, zero, suc, ◌+◌, ◌-◌, ◌*◌, ◌/◌, ◌%◌, ◌^◌, ◌<◌, ◌≤◌, ◌≡◌, refl, sym, ap, ◌∙◌, true, false, ◌⊎◌,
  inl, inr, none, some, arith, ◌==◌, if◌then◌else◌, Bool-cases, subst,
}
use native.Mathlib.Nat.{div-div-eq-div-mul, pow-succ'}
use n00b_os.Kernel.Stack.{is_set, find_bit_from, find_free_bit}

-- the lowest `k` bits are set
abbrev Ones : ℕ → ℕ → Type 0
Ones zero c = Unit
Ones (suc k) c = (c % 2 ≡ 1) × Ones k (c / 2)

Ones-full : (c : ℕ) → c < 2 ^ 32 → Ones 32 c → c ≡ 2 ^ 32 - 1
Ones-full c lt h = omega (arith, h)

half : (b i : ℕ) → b / 2 ^ i / 2 ≡ b / 2 ^ (i + 1)
half b i =
    let next : i + 1 ≡ suc i = omega arith in
    let double : 2 * 2 ^ i ≡ 2 ^ i * 2 = omega arith in
    div-div-eq-div-mul b (2 ^ i) 2
    ∙ sym (ap (λ p. b / p) (ap (λ k. 2 ^ k) next ∙ pow-succ' 2 i ∙ double))

find_bit_from_lem :
    (k i bitfield : ℕ)
    → ((find_bit_from k i bitfield ≡ none) × Ones k (bitfield / 2 ^ i))
      ⊎ ((j : ℕ) × (find_bit_from k i bitfield ≡ some j)
          × (i ≤ j)
          × (j < i + k)
          × (is_set bitfield j ≡ false)
          × ((l : ℕ) → i ≤ l → l < j → is_set bitfield l ≡ true))
unfolding find_bit_from
find_bit_from_lem zero i bitfield = inl (refl, tt)
find_bit_from_lem (suc k) i bitfield = elim (Bool-cases (is_set bitfield i)) [
  | inr free ↦
      inr (i, ground (arith, free), omega arith, omega arith, free, λ l lo hi. absurd (omega arith))
  | inl used ↦ elim (find_bit_from_lem k (i + 1) bitfield) [
    | inl (nothing, rest) ↦ inl (
      ground (arith, used, nothing),
      (ground (arith, used), subst (λ c. Ones k c) (sym (half bitfield i)) rest),
    )
    | inr (j, found, lo, hi, free, below) ↦ inr (
      j,
      ground (arith, used, found),
      omega arith,
      omega arith,
      free,
      λ l lo' hi'. elim (Bool-cases (l == i)) [
        | inl e ↦ subst (λ x. is_set bitfield x ≡ true) (ground (arith, e)) used
        | inr e ↦ below l (ground arith) hi'
      ],
    )
  ]
]

-- `find_free_bit` returns the lowest bit that is not set, and none only where all 32 are: its last
-- panic is not reached.
pub find_free_bit_lem :
    (bitfield : ℕ)
    → bitfield < 2 ^ 32
    → ((find_free_bit bitfield ≡ none) × (bitfield ≡ 2 ^ 32 - 1))
      ⊎ ((j : ℕ) × (find_free_bit bitfield ≡ some j)
          × (j < 32)
          × (is_set bitfield j ≡ false)
          × ((l : ℕ) → l < j → is_set bitfield l ≡ true))
unfolding find_free_bit
find_free_bit_lem bitfield lt = elim (Bool-cases (bitfield == 2 ^ 32 - 1)) [
  | inl full ↦ inl (ground (arith, full), ground (arith, full))
  | inr room ↦ elim (find_bit_from_lem 32 0 bitfield) [
    | inl (nothing, rest) ↦
        let one : bitfield / 2 ^ 0 ≡ bitfield = omega arith in
        let full = Ones-full bitfield lt (subst (λ c. Ones 32 c) one rest) in
        absurd (ground (arith, room, full))
    | inr (j, found, lo, hi, free, below) ↦ inr (
      j,
      subst (λ t. (if t then none else find_bit_from 32 0 bitfield) ≡ some j) (sym room) found,
      omega arith,
      free,
      λ l hi'. below l (omega arith) hi',
    )
  ]
]
