-- ===== src/Libk/Strings/Laws.antt =====
-- What the string functions do on strings.
use n00b_os.Prelude.{
  ℕ, zero, suc, ◌+◌, ◌<◌, ◌≤◌, ◌∙◌, ◌⊎◌, ◌≡◌, ◌≢◌, some, List, [], ◌∷◌, arith, length, ◌==◌,
  if◌then◌else◌, ℤ, sub_ℕ, pos, subst,
}
use n00b_os.Libk.Memory.{Memory, store, Apart}
use n00b_os.Libk.Strings.{strlen_from, strlen, strcmp_from, strcmp, strcpy_from, strcpy}

-- the characters `cs` and a final 0 stand from `p` on
abbrev pub IsString : Memory → ℕ → List ℕ → Type 0
IsString m p [] = m p ≡ 0
IsString m p (c ∷ cs) = (m p ≡ c) × (c ≢ 0) × IsString m (p + 1) cs

strlen_from_lem :
    (fuel : ℕ) (m : Memory) (str len : ℕ) (cs : List ℕ)
    → IsString m (str + len) cs
    → length cs < fuel
    → strlen_from fuel m str len ≡ some (len + length cs)
unfolding strlen_from
strlen_from_lem zero m str len cs h lt = absurd (omega arith)
strlen_from_lem (suc fuel) m str len [] h lt = ground arith
strlen_from_lem (suc fuel) m str len (c ∷ cs) h lt =
    let next : str + len + 1 ≡ str + (len + 1) = omega arith in
    ground (
      arith,
      h.0,
      h.1,
      strlen_from_lem fuel m str (len + 1) cs (subst (λ p. IsString m p cs) next h.2),
    )

-- `strlen` returns the length of a string, given a round more than that.
pub strlen_lem :
    (fuel : ℕ) (m : Memory) (str : ℕ) (cs : List ℕ)
    → IsString m str cs
    → length cs < fuel
    → strlen fuel m str ≡ some (length cs)
unfolding strlen
strlen_lem fuel m str cs h lt =
    let start : str ≡ str + 0 = omega arith in
    ground (arith, strlen_from_lem fuel m str 0 cs (subst (λ p. IsString m p cs) start h) lt)

-- the first place where two strings differ
unfoldable pub difference : List ℕ → List ℕ → ℤ
difference [] [] = pos 0
difference [] (d ∷ ds) = sub_ℕ 0 d
difference (c ∷ cs) [] = sub_ℕ c 0
difference (c ∷ cs) (d ∷ ds) = if c == d then difference cs ds else sub_ℕ c d

strcmp_from_lem :
    (fuel : ℕ) (m : Memory) (lhs rhs i : ℕ) (cs ds : List ℕ)
    → IsString m (lhs + i) cs
    → IsString m (rhs + i) ds
    → length cs < fuel
    → strcmp_from fuel m lhs rhs i ≡ some (difference cs ds)
unfolding strcmp_from difference
strcmp_from_lem zero m lhs rhs i cs ds h k lt = absurd (omega arith)
strcmp_from_lem (suc fuel) m lhs rhs i [] [] h k lt = ground arith
strcmp_from_lem (suc fuel) m lhs rhs i [] (d ∷ ds) h k lt = ground (arith, k.0, k.1)
strcmp_from_lem (suc fuel) m lhs rhs i (c ∷ cs) [] h k lt = ground (arith, h.0, h.1)
strcmp_from_lem (suc fuel) m lhs rhs i (c ∷ cs) (d ∷ ds) h k lt =
    let nl : lhs + i + 1 ≡ lhs + (i + 1) = omega arith in
    let nr : rhs + i + 1 ≡ rhs + (i + 1) = omega arith in
    ground (
      arith,
      h.0,
      h.1,
      k.0,
      k.1,
      strcmp_from_lem fuel m lhs rhs (i + 1) cs ds (subst (λ p. IsString m p cs) nl h.2)
          (subst (λ p. IsString m p ds) nr k.2),
    )

-- `strcmp` returns the difference of two strings at the first place where they differ, 0 where they
-- are equal.
pub strcmp-difference :
    (fuel : ℕ) (m : Memory) (lhs rhs : ℕ) (cs ds : List ℕ)
    → IsString m lhs cs
    → IsString m rhs ds
    → length cs < fuel
    → strcmp fuel m lhs rhs ≡ some (difference cs ds)
unfolding strcmp
strcmp-difference fuel m lhs rhs cs ds h k lt =
    let sl : lhs ≡ lhs + 0 = omega arith in
    let sr : rhs ≡ rhs + 0 = omega arith in
    strcmp_from_lem fuel m lhs rhs 0 cs ds (subst (λ p. IsString m p cs) sl h)
      (subst (λ p. IsString m p ds) sr k) lt

pub IsString-frame :
    (m m' : Memory) (p : ℕ) (cs : List ℕ)
    → ((a : ℕ) → p ≤ a → a ≤ p + length cs → m' a ≡ m a)
    → IsString m p cs
    → IsString m' p cs
IsString-frame m m' p [] same h = same p (omega arith) (omega arith) ∙ h
IsString-frame m m' p (c ∷ cs) same h = (
  same p (omega arith) (omega arith) ∙ h.0,
  h.1,
  IsString-frame m m' (p + 1) cs (λ a lo hi. same a (omega arith) (omega arith)) h.2,
)

-- a copy of the string `cs` in `m'`
abbrev pub Copied : Memory → Memory → ℕ → List ℕ → Type 0
Copied m m' dest cs =
    IsString m' dest cs × ((a : ℕ) → (a < dest) ⊎ (dest + length cs < a) → m' a ≡ m a)

strcpy_from-Copied :
    (fuel : ℕ) (m : Memory) (dest src i : ℕ) (cs : List ℕ)
    → IsString m (src + i) cs
    → Apart (dest + i) (length cs + 1) (src + i) (length cs + 1)
    → length cs < fuel
    → (m' : Memory) × (strcpy_from fuel m dest src i ≡ some m') × Copied m m' (dest + i) cs
unfolding strcpy_from
strcpy_from-Copied zero m dest src i cs h ap lt = absurd (omega arith)
strcpy_from-Copied (suc fuel) m dest src i [] h ap lt =
    (store m (dest + i) 0, ground arith, (ground arith, λ a out. ground arith))
strcpy_from-Copied (suc fuel) m dest src i (c ∷ cs) h ap lt =
    let m1 = store m (dest + i) (m (src + i)) in
    let ns : src + i + 1 ≡ src + (i + 1) = omega arith in
    let nd : dest + (i + 1) ≡ dest + i + 1 = omega arith in
    let there =
      IsString-frame m m1 (src + (i + 1)) cs (λ a lo hi. ground arith)
        (subst (λ p. IsString m p cs) ns h.2) in
    let r = strcpy_from-Copied fuel m1 dest src (i + 1) cs there (ground arith) (omega arith) in
    (
      r.0,
      ground (arith, h.0, h.1, r.1),
      (
        (ground (arith, r.2.1 (dest + i), h.0), h.1, subst (λ p. IsString r.0 p cs) nd r.2.0),
        λ a out. ground (arith, r.2.1 a),
      ),
    )

-- `strcpy` copies a string to a place that shares no byte with it, and changes no other byte.
pub strcpy-Copied :
    (fuel : ℕ) (m : Memory) (dest src : ℕ) (cs : List ℕ)
    → IsString m src cs
    → Apart dest (length cs + 1) src (length cs + 1)
    → length cs < fuel
    → (m' : Memory) × (strcpy fuel m dest src ≡ some m') × Copied m m' dest cs
unfolding strcpy
strcpy-Copied fuel m dest src cs h apart lt =
    let ss : src ≡ src + 0 = omega arith in
    let sd : dest + 0 ≡ dest = omega arith in
    let r =
      strcpy_from-Copied fuel m dest src 0 cs (subst (λ p. IsString m p cs) ss h) (ground arith)
        lt in
    (r.0, r.1, subst (λ p. Copied m r.0 p cs) sd r.2)
