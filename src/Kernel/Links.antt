-- ===== src/Kernel/Links.antt =====
-- Doubly linked nodes: what `next` and `previous` hold at each address.
use n00b_os.Prelude.{
  ℕ, ◌≡◌, refl, ◌≢◌, ap, ◌∙◌, sym, Bool, true, false, ◌||◌, List, [], ◌∷◌, ◌++◌, arith, ◌==◌,
  if◌then◌else◌,
}

abbrev pub Links : Type 0
Links = ℕ → ℕ

abbrev pub set_link : Links → ℕ → ℕ → Links
set_link f a v b = if b == a then v else f b

abbrev pub has : ℕ → List ℕ → Bool
has a [] = false
has a (x ∷ xs) = (a == x) || has a xs

infix 40 ◌∉◌
abbrev pub ◌∉◌ : ℕ → List ℕ → Type 0
a ∉ xs = has a xs ≡ false

abbrev pub Distinct : List ℕ → Type 0
Distinct [] = Unit
Distinct (x ∷ xs) = (x ∉ xs) × Distinct xs

pub has-append : (a b : ℕ) (xs : List ℕ) → has a (xs ++ (b ∷ [])) ≡ (a == b) || has a xs
has-append a b [] = refl
has-append a b (x ∷ xs) = ground (arith, has-append a b xs)

pub Distinct-append : (b : ℕ) (xs : List ℕ) → Distinct xs → b ∉ xs → Distinct (xs ++ (b ∷ []))
Distinct-append b [] d out = (refl, tt)
Distinct-append b (x ∷ xs) d out =
    (has-append x b xs ∙ ground arith, Distinct-append b xs d.1 (ground arith))

-- `next` leads from `p` through `xs` to `q`, and `previous` back
abbrev pub Chain : Links → Links → ℕ → List ℕ → ℕ → Type 0
Chain next previous p [] q = (next p ≡ q) × (previous q ≡ p)
Chain next previous p (x ∷ xs) q = (next p ≡ x) × (previous x ≡ p) × Chain next previous x xs q

-- a ring of distinct nodes, `p` first
pub record Ring (next previous : Links) (p : ℕ) (xs : List ℕ) : Type 0 where
  pub chain : Chain next previous p xs p
  pub apart : p ∉ xs
  pub distinct : Distinct xs

abbrev pub last_node : ℕ → List ℕ → ℕ
last_node p [] = p
last_node p (x ∷ xs) = last_node x xs

pub last_node-mem : (x : ℕ) (xs : List ℕ) → has (last_node x xs) (x ∷ xs) ≡ true
last_node-mem x [] = ground arith
last_node-mem x (y ∷ xs) = ground (arith, last_node-mem y xs)

pub Chain-previous :
    (next previous : Links) (p q : ℕ) (xs : List ℕ)
    → Chain next previous p xs q
    → previous q ≡ last_node p xs
Chain-previous next previous p q [] h = h.1
Chain-previous next previous p q (x ∷ xs) h = Chain-previous next previous x q xs h.2

-- a node outside a chain is not the second
pub Chain-next-ne :
    (next previous : Links) (p q new : ℕ) (xs : List ℕ)
    → Chain next previous p xs q
    → new ≢ q
    → new ∉ xs
    → next p ≢ new
Chain-next-ne next previous p q new [] h ne out = ground (arith, h)
Chain-next-ne next previous p q new (x ∷ xs) h ne out = ground (arith, h.0)

-- a chain depends on the links that it names
pub Chain-frame :
    (next previous next' previous' : Links) (p q : ℕ) (xs : List ℕ)
    → ((a : ℕ) → has a (p ∷ xs) ≡ true → next' a ≡ next a)
    → ((a : ℕ) → has a (q ∷ xs) ≡ true → previous' a ≡ previous a)
    → Chain next previous p xs q
    → Chain next' previous' p xs q
Chain-frame next previous next' previous' p q [] same_next same_previous h =
    (ground (arith, same_next p), ground (arith, same_previous q))
Chain-frame next previous next' previous' p q (x ∷ xs) same_next same_previous h = (
  ground (arith, same_next p),
  ground (arith, same_previous x),
  Chain-frame next previous next' previous' x q xs (λ a i. same_next a (ground arith))
      (λ a i. same_previous a (ground arith)) h.2,
)

module _ (next previous next' previous' : Links) (p : ℕ) where
  -- the four writes that put a new node behind the first
  pub Ring-insert :
      (xs : List ℕ) (new : ℕ)
      → Ring next previous p xs
      → new ≢ p
      → new ∉ xs
      → next' p ≡ new
      → next' new ≡ next p
      → ((a : ℕ) → a ≢ p → a ≢ new → next' a ≡ next a)
      → previous' new ≡ p
      → previous' (next p) ≡ new
      → ((a : ℕ) → a ≢ next p → a ≢ new → previous' a ≡ previous a)
      → Ring next' previous' p (new ∷ xs)
  Ring-insert [] new r ne out np nn ns pn pp ps = record {
    chain = (np, pn, (nn ∙ r.chain.0, sym (ap previous' r.chain.0) ∙ pp));
    apart = ground arith;
    distinct = (refl, tt);
  }
  Ring-insert (x ∷ xs) new r ne out np nn ns pn pp ps = record {
    chain = (
      np,
      pn,
      (
        nn ∙ r.chain.0,
        sym (ap previous' r.chain.0) ∙ pp,
        Chain-frame next previous next' previous' x p xs
            (λ a i. ns a (ground (arith, r.apart)) (ground arith))
            (λ a i. ps a (ground (arith, r.apart, r.distinct, r.chain)) (ground arith)) r.chain.2,
      ),
    );
    apart = ground (arith, r.apart);
    distinct = (out, r.distinct);
  }

  -- the last link of a chain led elsewhere
  turn :
      (x y : ℕ) (ys : List ℕ)
      → Chain next previous y ys p
      → Distinct (y ∷ ys)
      → x ∉ ys
      → next' (last_node y ys) ≡ x
      → ((a : ℕ) → a ≢ last_node y ys → next' a ≡ next a)
      → previous' x ≡ last_node y ys
      → ((a : ℕ) → a ≢ x → previous' a ≡ previous a)
      → Chain next' previous' y ys x
  turn x y [] h d out nl ns px ps = (nl, px)
  turn x y (z ∷ zs) h d out nl ns px ps = (
    ns y (λ e. ground (arith, last_node-mem z zs, d.0, e)) ∙ h.0,
    ps z (ground arith) ∙ h.1,
    turn x z zs h.2 d.1 (ground arith) nl ns px ps,
  )

  -- the two writes that take the first node out
  pub Ring-remove :
      (x : ℕ) (xs : List ℕ)
      → Ring next previous p (x ∷ xs)
      → next' (last_node x xs) ≡ x
      → ((a : ℕ) → a ≢ last_node x xs → next' a ≡ next a)
      → previous' x ≡ last_node x xs
      → ((a : ℕ) → a ≢ x → previous' a ≡ previous a)
      → Ring next' previous' x xs
  Ring-remove x xs r nl ns px ps = record {
    chain = turn x x xs r.chain.2 r.distinct r.distinct.0 nl ns px ps;
    apart = r.distinct.0;
    distinct = r.distinct.1;
  }
