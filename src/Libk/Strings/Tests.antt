-- ===== src/Libk/Strings/Tests.antt =====
-- "ab" at 10 and "ac" at 20.
use n00b_os.Prelude.{◌≡◌, refl, inl, some, [], ◌∷◌, arith, ◌==◌, if◌then◌else◌}
use n00b_os.Libk.Memory.{Memory}
use n00b_os.Libk.Strings.{strlen, strcmp, strcpy, strtok_r}
use n00b_os.Libk.Strings.Tokens.{Cut, strtok_r-Cut}
use n00b_os.Libk.Strings.Laws.{
  IsString, Copied, difference, strlen_lem, strcmp-difference, strcpy-Copied,
}

abbrev memory : Memory
memory a =
    if a == 10
    then 97
    else if a == 11
    then 98
    else if a == 20
    then 97
    else if a == 21
    then 99
    else 0

ab : IsString memory 10 (97 ∷ 98 ∷ [])
ab = (refl, omega arith, (refl, omega arith, refl))

ac : IsString memory 20 (97 ∷ 99 ∷ [])
ac = (refl, omega arith, (refl, omega arith, refl))

strlen_lem_example : strlen 3 memory 10 ≡ some 2
strlen_lem_example = strlen_lem 3 memory 10 (97 ∷ 98 ∷ []) ab (omega arith)

strcmp-difference_test : strcmp 3 memory 10 20 ≡ some (difference (97 ∷ 98 ∷ []) (97 ∷ 99 ∷ []))
strcmp-difference_test =
    strcmp-difference 3 memory 10 20 (97 ∷ 98 ∷ []) (97 ∷ 99 ∷ []) ab ac (omega arith)

strcpy-Copied_test :
    (m' : Memory) × (strcpy 3 memory 5 10 ≡ some m') × Copied memory m' 5 (97 ∷ 98 ∷ [])
strcpy-Copied_test = strcpy-Copied 3 memory 5 10 (97 ∷ 98 ∷ []) ab (inl (omega arith)) (omega arith)

-- "a/b" at 10, and the delimiters "/" at 20
abbrev path : Memory
path a =
    if a == 10
    then 97
    else if a == 11
    then 47
    else if a == 12
    then 98
    else if a == 20
    then 47
    else 0

strtok_r-Cut_example : Cut path 10 (47 ∷ []) (97 ∷ 47 ∷ 98 ∷ []) (strtok_r 5 path 10 20 0)
strtok_r-Cut_example =
    strtok_r-Cut 5 path 10 20 0 (47 ∷ []) (97 ∷ 47 ∷ 98 ∷ []) (refl, omega arith, refl)
      (omega arith) (refl, omega arith, (refl, omega arith, (refl, omega arith, refl)))
      (omega arith)
