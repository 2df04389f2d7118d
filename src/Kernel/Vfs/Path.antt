-- ===== src/Kernel/Vfs/Path.antt =====
-- How `vn_open` follows a path.
use n00b_os.Prelude.{
  ℕ, zero, suc, ◌+◌, ◌<◌, ◌≤◌, ◌≡◌, ◌≢◌, ◌⊎◌, inl, inr, refl, sym, ◌∙◌, subst, true, Bool-cases,
  Option-cases, Option, none, some, List, [], ◌∷◌, arith, length, ◌==◌, if◌then◌else◌, ℤ, pos,
  minus_one,
}
use n00b_os.Libk.Memory.{Memory, Apart}
use n00b_os.Libk.Strings.{strtok_r}
use n00b_os.Libk.Strings.Laws.{IsString, IsString-frame}
use n00b_os.Libk.Strings.Runs.{run, rest, word, after, is_empty, word-full, word-inside}
use n00b_os.Libk.Strings.Tokens.{Cut, strtok_r-Cut}
use n00b_os.Libk.Strings.Words.{words, words-after}
use n00b_os.Kernel.Vfs.Open.{VnodeOps, walk_path}

-- what a lookup returns where `find` finds a node, or none
abbrev pub looked_up : ℕ → Option ℕ → ℤ × ℕ
looked_up node none = (minus_one, node)
looked_up node (some next) = (pos 0, next)

-- from a node on along the names
abbrev pub resolve : (ℕ → List ℕ → Option ℕ) → ℕ → List (List ℕ) → ℤ × ℕ
resolve find node [] = (pos 0, node)
resolve find node (w ∷ ws) = elim (find node w) [
  | none ↦ (minus_one, node)
  | some next ↦ resolve find next ws
]

-- Outside of the `n` bytes from `p` on, `m'` is what `m` is.
abbrev pub SameOutside : ℕ → ℕ → Memory → Memory → Type 0
SameOutside p n m m' = (a : ℕ) → (a < p) ⊎ (p + n ≤ a) → m' a ≡ m a

pub SameOutside-trans :
    (p n : ℕ) (m m' m'' : Memory)
    → SameOutside p n m m'
    → SameOutside p n m' m''
    → SameOutside p n m m''
SameOutside-trans p n m m' m'' same same' a out = same' a out ∙ same a out

-- Wherever a memory holds the directories, `lookup` looks up what `find` finds, for names below a length;
-- and writing in the block of `n` bytes at `p` leaves the directories.
pub record Looks (ops : VnodeOps) (Holds : Memory → Type 0) (find : ℕ → List ℕ → Option ℕ)
    (limit p n : ℕ) : Type 0 where
  pub lookup-find :
      (m : Memory) (node nm : ℕ) (cs : List ℕ)
      → Holds m
      → IsString m nm cs
      → length cs < limit
      → ops.lookup m node nm ≡ some (looked_up node (find node cs))
  pub stay : (m m' : Memory) → Holds m → SameOutside p n m m' → Holds m'

module _ (ops : VnodeOps) (Holds : Memory → Type 0) (find : ℕ → List ℕ → Option ℕ) (limit at n : ℕ)
    (looks : Looks ops Holds find limit at n) where
  pub walk_path-resolve :
      (fuel separator : ℕ) (m : Memory) (str saveptr node : ℕ) (ds cs : List ℕ) (p : ℕ)
      → p ≡ (if str == 0 then saveptr else str)
      → IsString m p cs
      → p ≢ 0
      → at ≤ p
      → p + length cs < at + n
      → IsString m separator ds
      → separator ≢ 0
      → Apart separator (length ds + 1) at n
      → length cs + length ds + 1 < fuel
      → length cs < limit
      → Holds m
      → (m' : Memory) × (walk_path fuel ops separator m str saveptr node
          ≡ some (let (error, node') = resolve find node (words ds cs) in (error, node', m')))
        × SameOutside at n m m'
  unfolding walk_path
  walk_path-resolve zero separator m str saveptr node ds cs p is h pn lo hi s sn apart lt ll holds =
      absurd (omega arith)
  walk_path-resolve (suc fuel) separator m str saveptr node ds cs p is h pn lo hi s sn apart lt ll
        holds =
      let c0 =
        strtok_r-Cut fuel m str separator saveptr ds cs s sn (subst (λ q. IsString m q cs) is h)
          (omega arith) in
      let c = subst (λ q. Cut m q ds cs (strtok_r fuel m str separator saveptr)) (sym is) c0 in
      let inside = word-inside ds cs in
      let same : SameOutside at n m c.1 = λ a out. c.7 a (ground arith) in
      let steps = words-after ds cs in
      elim (Bool-cases (is_empty (rest true ds cs))) [
        | inl none_left ↦ (c.1, ground (arith, c.2, none_left, steps), same)
        | inr left ↦
            let start = p + length (run true ds cs) in
            let size = word-full ds cs left in
            let holds' = looks.stay m c.1 holds same in
            let met = looks.lookup-find c.1 node start (word ds cs) holds' c.3 (omega arith) in
            elim (Option-cases (find node (word ds cs))) [
              | inl no_node ↦ (c.1, ground (arith, c.2, left, met, no_node, steps), same)
              | inr found ↦
                  let ih =
                    walk_path-resolve fuel separator c.1 0 c.0 found.0 ds (after ds cs) c.0 refl c.4
                      (ground (arith, c.5)) (ground (arith, c.5)) (ground (arith, c.6))
                      (IsString-frame m c.1 separator ds
                        (λ a from to. c.7 a (ground (arith, apart))) s)
                      sn apart (ground (arith, c.5, c.6)) (ground (arith, c.5, c.6)) holds' in
                  (
                    ih.0,
                    ground (arith, c.2, left, met, found.1, steps, ih.1),
                    SameOutside-trans at n m c.1 ih.0 same ih.2,
                  )
            ]
      ]
