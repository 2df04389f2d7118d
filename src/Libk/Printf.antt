-- ===== src/Libk/Printf.antt =====
-- libk/src/all/stdio/printf.c: formatted output to the terminal. What is put on the terminal is
-- the list of its characters.
pub mod Number
pub mod Count
pub mod Text
mod Tests
use n00b_os.Prelude.{
  ℕ, zero, suc, ◌+◌, ◌/◌, ◌%◌, ◌^◌, Bool, true, false, ◌||◌, List, [], ◌∷◌, ◌++◌, length, ltb, ◌==◌,
  if◌then◌else◌,
}

-- what a call comes to: `undefined` stands for the behaviour that C leaves open
pub data Output : Type 0 where
  panic : Output
  undefined : Output
  printed : ℕ → List ℕ → Output

abbrev max_number_length : ℕ
max_number_length = 22

-- LOWER_DIGITS and UPPER_DIGITS
abbrev pub digit : Bool → ℕ → ℕ
digit uppercase d = if ltb d 10 then 48 + d else if uppercase then 55 + d else 87 + d

-- The `while` loop of `printf_u`; `reversed` holds the last digit that was written first, as the
-- loop that prints it does. A write past the buffer's end is left undefined.
pub write_digits : ℕ → ℕ → Bool → ℕ → ℕ → List ℕ → Output
write_digits zero base uppercase remain written reversed = undefined
write_digits (suc fuel) base uppercase remain written reversed =
    let rest =
      write_digits fuel base uppercase (remain / base) (written + 1)
        (digit uppercase (remain % base) ∷ reversed) in
    if remain == 0
    then printed written reversed
    else if ltb max_number_length written
    then panic
    else if written == max_number_length
    then undefined
    else rest

pub printf_u : ℕ → ℕ → Bool → Output
unfolding write_digits
printf_u i base uppercase =
    if ltb 16 base
    then panic
    else if i == 0
    then printed 1 (digit uppercase 0 ∷ [])
    else write_digits 24 base uppercase i 0 []

-- a variadic argument
pub data Argument : Type 0 where
  number : ℕ → Argument
  text : List ℕ → Argument

-- the conversions that take an argument
is_conversion : ℕ → Bool
is_conversion c = c == 99 || c == 115 || c == 120 || c == 88 || c == 111 || c == 117 || c == 74

-- the cases `c`, `x`, `X`, `o`, `u`, `J` and `s` of the `switch`, and its default
convert_argument : ℕ → Argument → Output
unfolding is_conversion printf_u
convert_argument c (number n) =
    if c == 99
    then printed 1 (n % 2 ^ 8 ∷ [])
    else if c == 120 || c == 88
    then printf_u (n % 2 ^ 32) 16 (c == 88)
    else if c == 111
    then printf_u (n % 2 ^ 32) 8 true
    else if c == 117
    then printf_u (n % 2 ^ 32) 10 true
    else if c == 74
    then printf_u (n % 2 ^ 64) 16 true
    else if c == 115
    then undefined
    else panic
convert_argument c (text s) =
    if c == 115 then printed (length s) s else if is_conversion c then undefined else panic

-- what a conversion puts, with the arguments that are left
convert : ℕ → List Argument → Output × List Argument
unfolding convert_argument
convert c [] =
    (if c == 37 then printed 1 (37 ∷ []) else if is_conversion c then undefined else panic, [])
convert c (a ∷ rest) = (
  if c == 37 then printed 1 (37 ∷ []) else convert_argument c a,
  if c == 37 then a ∷ rest else rest,
)

-- output after output
abbrev pub then_put : Output → Output → Output
then_put (printed n s) (printed k t) = printed (n + k) (s ++ t)
then_put (printed n s) panic = panic
then_put (printed n s) undefined = undefined
then_put panic o = panic
then_put undefined o = undefined

-- `format` is a string without its final 0.
pub printf : List ℕ → List Argument → Output
unfolding convert
printf [] args = printed 0 []
printf (f ∷ []) args = if f == 37 then panic else printed 1 (f ∷ [])
printf (f ∷ c ∷ format) args =
    let plain = printf (c ∷ format) args in
    let made = convert c args in
    let after = printf format made.1 in
    if f == 37 then then_put made.0 after else then_put (printed 1 (f ∷ [])) plain
