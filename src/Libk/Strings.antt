-- ===== src/Libk/Strings.antt =====
-- libk/src/all/string: strlen, strcmp, strcpy, strchr and strtok_r on 0-terminated strings in byte
-- memory. Their loops have no bound of their own: they run on fuel, and `none` is a loop that went on.
pub mod Laws
pub mod Same
pub mod Runs
pub mod Tokens
pub mod Words
mod Tests
use n00b_os.Prelude.{
  ℕ, zero, suc, ◌+◌, Bool, true, false, not, ◌&&◌, ◌||◌, Option, none, some, ◌==◌, if◌then◌else◌, ℤ,
  sub_ℕ,
}
use n00b_os.Libk.Memory.{Memory, store}
use mathlib.Core.Option

unfoldable pub strlen_from : ℕ → Memory → ℕ → ℕ → Option ℕ
strlen_from zero m str len = none
strlen_from (suc fuel) m str len =
    let rest = strlen_from fuel m str (len + 1) in if m (str + len) == 0 then some len else rest

unfoldable pub strlen : ℕ → Memory → ℕ → Option ℕ
unfolding strlen_from
strlen fuel m str = strlen_from fuel m str 0

unfoldable pub strcmp_from : ℕ → Memory → ℕ → ℕ → ℕ → Option ℤ
strcmp_from zero m lhs rhs i = none
strcmp_from (suc fuel) m lhs rhs i =
    let rest = strcmp_from fuel m lhs rhs (i + 1) in
    if (m (lhs + i) == m (rhs + i)) && not (m (lhs + i) == 0)
    then rest
    else some (sub_ℕ (m (lhs + i)) (m (rhs + i)))

unfoldable pub strcmp : ℕ → Memory → ℕ → ℕ → Option ℤ
unfolding strcmp_from
strcmp fuel m lhs rhs = strcmp_from fuel m lhs rhs 0

unfoldable pub strcpy_from : ℕ → Memory → ℕ → ℕ → ℕ → Option Memory
strcpy_from zero m dest src i = none
strcpy_from (suc fuel) m dest src i =
    let rest = strcpy_from fuel (store m (dest + i) (m (src + i))) dest src (i + 1) in
    if m (src + i) == 0 then some (store m (dest + i) 0) else rest

unfoldable pub strcpy : ℕ → Memory → ℕ → ℕ → Option Memory
unfolding strcpy_from
strcpy fuel m dest src = strcpy_from fuel m dest src 0

-- the address of the character, 0 for NULL
strchr_from : ℕ → Memory → ℕ → ℕ → ℕ → Option ℕ
strchr_from zero m str c i = none
strchr_from (suc fuel) m str c i =
    let rest = strchr_from fuel m str c (i + 1) in
    if m (str + i) == c then some (str + i) else if m (str + i) == 0 then some 0 else rest

pub strchr : ℕ → Memory → ℕ → ℕ → Option ℕ
unfolding strchr_from
strchr fuel m str character = strchr_from fuel m str character 0

-- The loops of `strtok_r`: on while `strchr` finds the character, or finds it not, as `found` says.
skip : ℕ → Memory → ℕ → Bool → ℕ → Option ℕ
unfolding strchr
skip zero m delim found p = none
skip (suc fuel) m delim found p =
    let rest = skip fuel m delim found (p + 1) in
    if m p == 0 then some p else elim (strchr (suc fuel) m delim (m p)) [
      | none ↦ none
      | some at ↦ if (if at == 0 then not found else found) then rest else some p
    ]

-- The token, 0 for NULL, with `*saveptr` and the memory.
pub strtok_r : ℕ → Memory → ℕ → ℕ → ℕ → Option (ℕ × ℕ × Memory)
unfolding skip
strtok_r fuel m str delim saveptr =
    elim (skip fuel m delim true (if str == 0 then saveptr else str)) [
      | none ↦ none
      | some start ↦ elim (skip fuel m delim false start) [
        | none ↦ none
        | some end ↦
            if m end == 0
            then some (if start == end then 0 else start, end, m)
            else some (start, end + 1, store m end 0)
      ]
    ]
