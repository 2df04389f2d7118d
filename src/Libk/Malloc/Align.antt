-- ===== src/Libk/Malloc/Align.antt =====
-- `aligned_size` of malloc.c.
use n00b_os.Prelude.{
  ℕ, ◌+◌, ◌-◌, ◌*◌, ◌/◌, ◌%◌, ◌^◌, ◌≤◌, ◌<◌, ◌≡◌, sym, ap, ◌∙◌, arith, ◌==◌, Bool-cases, inl, inr,
  if◌then◌else◌,
}
use native.Mathlib.Nat.{mod-lt, add-mod-mod, mod-eq_of_lt, div-add-mod, mul-mod_right}
use native.Mathlib.Decide.{dec_lt}
use n00b_os.Libk.Malloc.{aligned_size}

-- below `k` there is no multiple but 0
gap : (a n k : ℕ) → n % k ≡ 0 → (a + n) % k ≡ 0 → a < k → a ≡ 0
gap a n k h e lt = sym (mod-eq_of_lt lt) ∙ ap (λ t. t % k) (omega arith) ∙ shift ∙ e
  where
    shift : (a + n % k) % k ≡ (a + n) % k
    shift = add-mod-mod a n k

module _ (max_align size : ℕ) (pos : 0 < max_align) where
  padding : ℕ
  padding = if size % max_align == 0 then 0 else max_align - size % max_align

  padding-lt : padding < max_align
  unfolding padding
  padding-lt = ground (arith, mod-lt size pos)

  padded-mod : (size + padding) % max_align ≡ 0
  unfolding padding
  padded-mod = elim (Bool-cases (size % max_align == 0)) [
    | inl b ↦ ground arith
    | inr b ↦ ground (
      arith,
      div-add-mod size max_align,
      mul-mod_right max_align (size / max_align + 1),
      mod-lt size pos,
      whole,
    )
  ]
    where
      whole : size + (max_align - size % max_align) ≡ max_align * (size / max_align + 1)
      whole = omega (arith, div-add-mod size max_align, mod-lt size pos)

  -- For a size that the machine can round up, `aligned_size` is the least multiple of the alignment
  -- that is not below it.
  pub aligned_size_lem :
      size + max_align ≤ 2 ^ 32
      → (aligned_size max_align size % max_align ≡ 0)
        × (size ≤ aligned_size max_align size)
        × (aligned_size max_align size < size + max_align)
  unfolding aligned_size padding
  aligned_size_lem small = ground (arith, padding-lt, padded-mod)

  -- A size within one alignment step of the end of `size_t` wraps round to 0, where the alignment
  -- divides `2 ^ 32`.
  pub aligned_size_wraps :
      2 ^ 32 % max_align ≡ 0
      → size < 2 ^ 32
      → 2 ^ 32 < size + max_align
      → aligned_size max_align size ≡ 0
  unfolding aligned_size padding
  aligned_size_wraps divides lt over = elim (dec_lt (size + padding) (2 ^ 32)) [
    | yes below ↦
        let zero_gap : 2 ^ 32 - (size + padding) ≡ 0 =
          gap (2 ^ 32 - (size + padding)) (size + padding) max_align padded-mod
            (ap (λ t. t % max_align) {y = 2 ^ 32} (omega arith) ∙ divides) (omega arith) in
        absurd (omega arith)
    | no above ↦
        let zero_gap : size + padding - 2 ^ 32 ≡ 0 =
          gap (size + padding - 2 ^ 32) (2 ^ 32) max_align divides
            (ap (λ t. t % max_align) {y = size + padding} (omega arith) ∙ padded-mod)
            (omega (arith, padding-lt)) in
        omega (arith, zero_gap, above)
  ]
