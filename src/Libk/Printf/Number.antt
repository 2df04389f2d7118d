-- ===== src/Libk/Printf/Number.antt =====
-- The numbers that `printf` prints, read back.
use n00b_os.Prelude.{
  ℕ, zero, suc, ◌+◌, ◌-◌, ◌*◌, ◌/◌, ◌%◌, ◌^◌, ◌<◌, ◌≤◌, ◌≡◌, ◌⊎◌, inl, inr, refl, sym, ◌∙◌, ap,
  Bool, true, false, List, [], ◌∷◌, arith, length, ltb, ◌==◌, if◌then◌else◌, Bool-cases, subst,
}
use native.Mathlib.Nat.{div-add-mod'}
use n00b_os.Libk.Printf.{Output, printed, digit, write_digits, printf_u}

-- the value of a digit's character
abbrev pub digit_value : ℕ → ℕ
digit_value c = if ltb c 58 then c - 48 else if ltb c 71 then c - 55 else c - 87

-- the number that a text reads as, after the digits of `n`
unfoldable pub read_from : ℕ → ℕ → List ℕ → ℕ
read_from base n [] = n
read_from base n (c ∷ cs) = read_from base (n * base + digit_value c) cs

-- the number divided by the base `k` times
abbrev shrink : ℕ → ℕ → ℕ → ℕ
shrink base zero n = n
shrink base (suc k) n = shrink base k (n / base)

digit_value-digit : (uppercase : Bool) (d : ℕ) → d < 16 → digit_value (digit uppercase d) ≡ d
digit_value-digit true d lt = ground arith
digit_value-digit false d lt = ground arith

-- what is printed reads back as `n`
abbrev pub ReadsAs : Output → ℕ → ℕ → Type 0
ReadsAs o base n =
    (k : ℕ) × (s : List ℕ) × (o ≡ printed k s)
    × (length s ≡ k)
    × (0 < k)
    × (k ≤ 22)
    × (read_from base 0 s ≡ n)

write_digits_lem :
    (fuel k base : ℕ) (uppercase : Bool) (remain written : ℕ) (reversed : List ℕ)
    → 1 < base
    → base ≤ 16
    → shrink base k remain ≡ 0
    → k < fuel
    → k + written ≤ 22
    → 0 < remain + written
    → length reversed ≡ written
    → (n : ℕ) × (s : List ℕ) × (write_digits fuel base uppercase remain written reversed
        ≡ printed n s)
      × (length s ≡ n)
      × (0 < n)
      × (n ≤ 22)
      × (read_from base 0 s ≡ read_from base remain reversed)
unfolding write_digits read_from
write_digits_lem zero k base uppercase remain written reversed lo hi sh lt room pos len =
    absurd (omega arith)
write_digits_lem (suc fuel) zero base uppercase remain written reversed lo hi sh lt room pos len = (
  written,
  reversed,
  ground (arith, sh),
  len,
  ground (arith, sh),
  omega arith,
  ap (λ r. read_from base r reversed) (sym sh),
)
write_digits_lem (suc fuel) (suc k) base uppercase remain written reversed lo hi sh lt room pos
      len =
    elim (Bool-cases (remain == 0)) [
      | inl done ↦
          let stop : remain ≡ 0 = ground arith in
          (
            written,
            reversed,
            ground arith,
            len,
            omega arith,
            omega arith,
            ap (λ r. read_from base r reversed) (sym stop),
          )
      | inr more ↦
          let d = remain % base in
          let ih =
            write_digits_lem fuel k base uppercase (remain / base) (written + 1)
              (digit uppercase d ∷ reversed) lo hi sh (omega arith) (omega arith) (omega arith)
              (ap suc len ∙ omega arith) in
          (
            ih.0,
            ih.1,
            ground (arith, ih.2),
            ih.3,
            ih.4,
            ih.5,
            ih.6
                ∙ ap (λ r. read_from base r reversed)
                    (ap (λ v. remain / base * base + v)
                        (digit_value-digit uppercase d (omega arith))
                      ∙ div-add-mod' remain base),
          )
    ]

fits8 : (n : ℕ) → n < 2 ^ 64 → shrink 8 22 n ≡ 0
fits8 n lt = omega arith

fits10 : (n : ℕ) → n < 2 ^ 64 → shrink 10 22 n ≡ 0
fits10 n lt = omega arith

fits16 : (n : ℕ) → n < 2 ^ 64 → shrink 16 22 n ≡ 0
fits16 n lt = omega arith

printf_u-positive :
    (i base : ℕ) (uppercase : Bool)
    → 1 < base
    → base ≤ 16
    → shrink base 22 i ≡ 0
    → 0 < i
    → ReadsAs (printf_u i base uppercase) base i
unfolding printf_u read_from
printf_u-positive i base uppercase lo hi sh pos =
    let w =
      write_digits_lem 24 22 base uppercase i 0 [] lo hi sh (omega arith) (omega arith)
        (omega arith) refl in
    (w.0, w.1, ground (arith, w.2), w.3, w.4, w.5, w.6)

printf_u-ReadsAs :
    (i base : ℕ) (uppercase : Bool)
    → 1 < base
    → base ≤ 16
    → shrink base 22 i ≡ 0
    → ReadsAs (printf_u i base uppercase) base i
unfolding printf_u read_from
printf_u-ReadsAs zero base uppercase lo hi sh =
    (1, 48 ∷ [], ground arith, refl, omega arith, omega arith, omega arith)
printf_u-ReadsAs (suc i) base uppercase lo hi sh =
    printf_u-positive (suc i) base uppercase lo hi sh (omega arith)

-- `printf_u` prints a number of 64 bits to the base 8, 10 or 16 without a panic, in 1 to 22
-- characters that it counts, and they read back as the number.
pub printf_u-reads :
    (i base : ℕ) (uppercase : Bool)
    → (base ≡ 8) ⊎ ((base ≡ 10) ⊎ (base ≡ 16))
    → i < 2 ^ 64
    → ReadsAs (printf_u i base uppercase) base i
printf_u-reads i base uppercase (inl e) lt =
    subst (λ b. ReadsAs (printf_u i b uppercase) b i) (sym e)
      (printf_u-ReadsAs i 8 uppercase (omega arith) (omega arith) (fits8 i lt))
printf_u-reads i base uppercase (inr (inl e)) lt =
    subst (λ b. ReadsAs (printf_u i b uppercase) b i) (sym e)
      (printf_u-ReadsAs i 10 uppercase (omega arith) (omega arith) (fits10 i lt))
printf_u-reads i base uppercase (inr (inr e)) lt =
    subst (λ b. ReadsAs (printf_u i b uppercase) b i) (sym e)
      (printf_u-ReadsAs i 16 uppercase (omega arith) (omega arith) (fits16 i lt))
