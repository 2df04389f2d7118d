-- ===== src/Kernel/Tarfs/Names.antt =====
-- Paths in memory: names with a "/" between two.
use n00b_os.Prelude.{ℕ, ◌+◌, ◌-◌, ◌<◌, ◌≤◌, ◌≡◌, ◌≢◌, ◌∙◌, subst, List, [], ◌∷◌, arith, length}
use n00b_os.Libk.Memory.{Memory}

-- the characters `s`, none of them 0 or "/", stand from `p` on
abbrev pub Name : Memory → ℕ → List ℕ → Type 0
Name m p [] = Unit
Name m p (c ∷ s) = (m p ≡ c) × (c ≢ 0) × (c ≢ 47) × Name m (p + 1) s

-- the name `s` and the names `ss` stand from `p` on, with a "/" between two
abbrev pub Names : Memory → ℕ → List ℕ → List (List ℕ) → Type 0
Names m p s [] = Name m p s
Names m p s (t ∷ ss) = Name m p s × (m (p + length s) ≡ 47) × Names m (p + length s + 1) t ss

abbrev pub names_length : List ℕ → List (List ℕ) → ℕ
names_length s [] = length s
names_length s (t ∷ ss) = length s + 1 + names_length t ss

pub Name-frame :
    (m m' : Memory) (p n : ℕ) (s : List ℕ)
    → length s ≤ n
    → ((a : ℕ) → p ≤ a → a < p + n → m' a ≡ m a)
    → Name m p s
    → Name m' p s
Name-frame m m' p n [] le same h = tt
Name-frame m m' p n (c ∷ s) le same h = (
  same p (omega arith) (omega arith) ∙ h.0,
  h.1,
  h.2,
  Name-frame m m' (p + 1) (n - 1) s (omega arith) (λ a lo hi. same a (omega arith) (omega arith))
      h.3,
)

pub Names-frame :
    (m m' : Memory) (p n : ℕ) (s : List ℕ) (ss : List (List ℕ))
    → names_length s ss ≤ n
    → ((a : ℕ) → p ≤ a → a < p + n → m' a ≡ m a)
    → Names m p s ss
    → Names m' p s ss
Names-frame m m' p n s [] le same h = Name-frame m m' p n s le same h
Names-frame m m' p n s (t ∷ ss) le same h = (
  Name-frame m m' p n s (omega arith) same h.0,
  same (p + length s) (omega arith) (omega arith) ∙ h.1,
  Names-frame m m' (p + length s + 1) (n - length s - 1) t ss (omega arith)
      (λ a lo hi. same a (omega arith) (omega arith)) h.2,
)

-- the last name is not empty
abbrev pub Ends : List ℕ → List (List ℕ) → Type 0
Ends s [] = 0 < length s
Ends s (t ∷ ss) = Ends t ss

pub Ends-length : (s : List ℕ) (ss : List (List ℕ)) → Ends s ss → 0 < names_length s ss
Ends-length s [] h = h
Ends-length s (t ∷ ss) h = omega arith

Name-last :
    (m : Memory) (p : ℕ) (s : List ℕ) → Name m p s → 0 < length s → m (p + length s - 1) ≢ 47
Name-last m p [] h l = absurd (omega arith)
Name-last m p (c ∷ []) h l = λ e. h.2 (ground (arith, h.0, e))
Name-last m p (c ∷ d ∷ s) h l =
    let next : p + 1 + length (d ∷ s) - 1 ≡ p + length (c ∷ d ∷ s) - 1 = omega arith in
    subst (λ a. m a ≢ 47) next (Name-last m (p + 1) (d ∷ s) h.3 (omega arith))

pub Names-last :
    (m : Memory) (p : ℕ) (s : List ℕ) (ss : List (List ℕ))
    → Names m p s ss
    → Ends s ss
    → m (p + names_length s ss - 1) ≢ 47
Names-last m p s [] h e = Name-last m p s h e
Names-last m p s (t ∷ ss) h e =
    let some_left = Ends-length t ss e in
    let next : p + length s + 1 + names_length t ss - 1
        ≡ p + (length s + 1 + names_length t ss) - 1 =
      omega arith in
    subst (λ a. m a ≢ 47) next (Names-last m (p + length s + 1) t ss h.2 e)
