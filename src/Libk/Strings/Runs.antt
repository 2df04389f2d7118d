-- ===== src/Libk/Strings/Runs.antt =====
-- Runs of delimiters and of other characters, and the first word of a string.
use n00b_os.Prelude.{
  ℕ, ◌+◌, ◌≤◌, ◌≡◌, inl, inr, refl, sym, subst, Bool, true, false, not, ◌||◌, List, [], ◌∷◌, arith,
  length, ◌==◌, if◌then◌else◌, Bool-cases,
}

abbrev pub occurs : ℕ → List ℕ → Bool
occurs c [] = false
occurs c (d ∷ ds) = (c == d) || occurs c ds

-- the characters that lead `cs` and are, or are not, delimiters
abbrev pub run : Bool → List ℕ → List ℕ → List ℕ
run found ds [] = []
run found ds (c ∷ cs) =
    if (if occurs c ds then found else not found) then c ∷ run found ds cs else []

-- and those from the first other one on
abbrev pub rest : Bool → List ℕ → List ℕ → List ℕ
rest found ds [] = []
rest found ds (c ∷ cs) =
    if (if occurs c ds then found else not found) then rest found ds cs else c ∷ cs

-- the string begins with no delimiter
unfoldable pub Begun : List ℕ → List ℕ → Type 0
Begun ds [] = Unit
Begun ds (c ∷ cs) = occurs c ds ≡ false

pub rest-Begun : (ds cs : List ℕ) → Begun ds (rest true ds cs)
unfolding Begun
rest-Begun ds [] = tt
rest-Begun ds (c ∷ cs) = elim (Bool-cases (occurs c ds)) [
  | inl is ↦
      subst (λ b. Begun ds (if (if b then true else false) then rest true ds cs else c ∷ cs))
        (sym is) (rest-Begun ds cs)
  | inr not ↦
      subst (λ b. Begun ds (if (if b then true else false) then rest true ds cs else c ∷ cs))
        (sym not) not
]

abbrev pub tail : List ℕ → List ℕ
tail [] = []
tail (c ∷ cs) = cs

abbrev pub is_empty : List ℕ → Bool
is_empty [] = true
is_empty (c ∷ cs) = false

-- the first word of a string, and the string after the delimiter that ends it
abbrev pub word : List ℕ → List ℕ → List ℕ
word ds cs = run false ds (rest true ds cs)

abbrev pub after : List ℕ → List ℕ → List ℕ
after ds cs = tail (rest false ds (rest true ds cs))

pub length-run-rest :
    (found : Bool) (ds cs : List ℕ)
    → length (run found ds cs) + length (rest found ds cs) ≡ length cs
length-run-rest found ds [] = omega arith
length-run-rest found ds (c ∷ cs) = ground (arith, length-run-rest found ds cs)

pub run-full : (ds cs : List ℕ) → Begun ds cs → is_empty cs ≡ false → 1 ≤ length (run false ds cs)
unfolding Begun
run-full ds [] b h = ground (arith, h)
run-full ds (c ∷ cs) b h = ground (arith, b)

-- the first word, where there is one, has a character
pub word-full : (ds cs : List ℕ) → is_empty (rest true ds cs) ≡ false → 1 ≤ length (word ds cs)
word-full ds cs h = run-full ds (rest true ds cs) (rest-Begun ds cs) h

-- the first word ends in the string
pub word-inside : (ds cs : List ℕ) → length (run true ds cs) + length (word ds cs) ≤ length cs
word-inside ds cs =
    omega (arith, length-run-rest true ds cs, length-run-rest false ds (rest true ds cs))

pub run-start :
    (ds cs : List ℕ) (start : ℕ)
    → Begun ds cs
    → (start == start + length (run false ds cs)) ≡ is_empty cs
unfolding Begun
run-start ds [] start b = ground arith
run-start ds (c ∷ cs) start b = ground (arith, b)

pub rest-full :
    (ds cs : List ℕ) (c : ℕ) (r : List ℕ) → rest false ds cs ≡ c ∷ r → is_empty cs ≡ false
rest-full ds [] c r is = ground (arith, is)
rest-full ds (b ∷ cs) c r is = refl
