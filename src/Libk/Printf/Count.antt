-- ===== src/Libk/Printf/Count.antt =====
-- What `printf` returns.
use n00b_os.Prelude.{
  ℕ, zero, suc, ◌+◌, ◌/◌, ◌%◌, ◌^◌, ◌≡◌, refl, Bool, true, false, List, [], ◌∷◌, length,
  length-append, arith, ◌==◌, if◌then◌else◌,
}
use n00b_os.Libk.Printf.{
  Output, panic, undefined, printed, Argument, number, text, digit, write_digits, printf_u,
  convert_argument, convert, then_put, printf,
}

-- the number that is returned is that of the characters
pub data IsCounted : Output → Type 0 where
  panics : IsCounted panic
  unknown : IsCounted undefined
  counted : {n : ℕ} {s : List ℕ} → length s ≡ n → IsCounted (printed n s)

if-IsCounted :
    (b : Bool) (o o' : Output) → IsCounted o → IsCounted o' → IsCounted (if b then o else o')
if-IsCounted true o o' h h' = h
if-IsCounted false o o' h h' = h'

then_put-IsCounted : (o o' : Output) → IsCounted o → IsCounted o' → IsCounted (then_put o o')
then_put-IsCounted (printed n s) (printed k t) (counted h) (counted h') =
    counted (omega (arith, length-append s t))
then_put-IsCounted (printed n s) panic h h' = panics
then_put-IsCounted (printed n s) undefined h h' = unknown
then_put-IsCounted panic o' h h' = panics
then_put-IsCounted undefined o' h h' = unknown

write_digits-IsCounted :
    (fuel base : ℕ) (uppercase : Bool) (remain written : ℕ) (reversed : List ℕ)
    → length reversed ≡ written
    → IsCounted (write_digits fuel base uppercase remain written reversed)
unfolding write_digits
write_digits-IsCounted zero base uppercase remain written reversed h = unknown
write_digits-IsCounted (suc fuel) base uppercase remain written reversed h =
    if-IsCounted _ _ _ (counted h) (
      if-IsCounted _ _ _ panics (
        if-IsCounted _ _ _ unknown (
          write_digits-IsCounted fuel base uppercase (remain / base) (written + 1)
            (digit uppercase (remain % base) ∷ reversed) (omega arith))))

printf_u-IsCounted : (i base : ℕ) (uppercase : Bool) → IsCounted (printf_u i base uppercase)
unfolding printf_u
printf_u-IsCounted i base uppercase = if-IsCounted _ _ _ panics (
    if-IsCounted _ _ _ (counted {s = digit uppercase 0 ∷ []} refl)
      (write_digits-IsCounted 24 base uppercase i 0 [] refl))

convert_argument-IsCounted : (c : ℕ) (a : Argument) → IsCounted (convert_argument c a)
unfolding convert_argument
convert_argument-IsCounted c (number n) = if-IsCounted _ _ _ (counted {s = n % 2 ^ 8 ∷ []} refl) (
    if-IsCounted _ _ _ (printf_u-IsCounted (n % 2 ^ 32) 16 (c == 88)) (
      if-IsCounted _ _ _ (printf_u-IsCounted (n % 2 ^ 32) 8 true) (
        if-IsCounted _ _ _ (printf_u-IsCounted (n % 2 ^ 32) 10 true) (
          if-IsCounted _ _ _ (printf_u-IsCounted (n % 2 ^ 64) 16 true)
            (if-IsCounted _ _ _ unknown panics)))))
convert_argument-IsCounted c (text s) =
    if-IsCounted _ _ _ (counted {s = s} refl) (if-IsCounted _ _ _ unknown panics)

convert-IsCounted : (c : ℕ) (args : List Argument) → IsCounted (convert c args).0
unfolding convert
convert-IsCounted c [] =
    if-IsCounted _ _ _ (counted {s = 37 ∷ []} refl) (if-IsCounted _ _ _ unknown panics)
convert-IsCounted c (a ∷ rest) =
    if-IsCounted _ _ _ (counted {s = 37 ∷ []} refl) (convert_argument-IsCounted c a)

-- `printf` returns the number of the characters that it puts on the terminal, whatever the format and
-- the arguments, unless it panics or its behaviour is undefined.
pub printf-IsCounted : (format : List ℕ) (args : List Argument) → IsCounted (printf format args)
unfolding printf
printf-IsCounted [] args = counted {s = []} refl
printf-IsCounted (f ∷ []) args = if-IsCounted _ _ _ panics (counted {s = f ∷ []} refl)
printf-IsCounted (f ∷ c ∷ format) args =
    if-IsCounted _ _ _
      (then_put-IsCounted _ _ (convert-IsCounted c args)
        (printf-IsCounted format (convert c args).1))
      (then_put-IsCounted _ _ (counted {s = f ∷ []} refl) (printf-IsCounted (c ∷ format) args))
