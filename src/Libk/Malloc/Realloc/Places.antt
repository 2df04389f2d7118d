-- ===== src/Libk/Malloc/Realloc/Places.antt =====
-- Where two chunks of one heap stand, and what the space of one becomes when it is handed out.
use n00b_os.Prelude.{
  ℕ, ◌+◌, ◌-◌, ◌%◌, ◌≤◌, ◌<◌, ◌≡◌, refl, sym, ap, ◌∙◌, ◌⊎◌, inl, inr, Bool, true, false, Bool-cases,
  List, [], ◌∷◌, ◌++◌, arith, ltb,
}
use n00b_os.Libk.Memory.{Memory}
use n00b_os.Libk.Malloc.Layout.{Chunk, chunk, total, Layout, Layout-split, Layout-replace}
use n00b_os.Libk.Malloc.Place.{cut}
use n00b_os.Libk.Malloc.Tail.{kept_part}
use n00b_os.Libk.Malloc.Joins.{join_before, join_after}

abbrev first_chunk : List Chunk → Chunk
first_chunk [] = chunk true 0
first_chunk (c ∷ cs) = c

abbrev other_chunks : List Chunk → List Chunk
other_chunks [] = []
other_chunks (c ∷ cs) = cs

abbrev is_free : Chunk → Bool
is_free (chunk f s) = f

-- A chunk in use and a free one of the same heap: the free one is behind the other, or before it.
pub order :
    (front back front' back' : List Chunk) (s t : ℕ)
    → front ++ (chunk false s ∷ back) ≡ front' ++ (chunk true t ∷ back')
    → ((g : List Chunk) × (front' ≡ front ++ (chunk false s ∷ g))
        × (back ≡ g ++ (chunk true t ∷ back')))
      ⊎ ((g : List Chunk) × (front ≡ front' ++ (chunk true t ∷ g))
          × (back' ≡ g ++ (chunk false s ∷ back)))
order [] back [] back' s t e = absurd (ground (arith, ap (λ l. is_free (first_chunk l)) e))
order [] back (d ∷ front') back' s t e =
    inl (front', ap (λ c. c ∷ front') (sym (ap first_chunk e)), ap other_chunks e)
order (c ∷ front) back [] back' s t e =
    inr (front, ap (λ d. d ∷ front) (ap first_chunk e), sym (ap other_chunks e))
order (c ∷ front) back (d ∷ front') back' s t e =
    let same : c ≡ d = ap first_chunk e in
    elim (order front back front' back' s t (ap other_chunks e)) [
      | inl (g, a, b) ↦
          inl (g, ap (λ l. d ∷ l) a ∙ ap (λ x. x ∷ (front ++ (chunk false s ∷ g))) (sym same), b)
      | inr (g, a, b) ↦
          inr (g, ap (λ l. c ∷ l) a ∙ ap (λ x. x ∷ (front' ++ (chunk true t ∷ g))) same, b)
    ]

-- The handed out part of a chunk comes first, and the parts fill the chunk.
pub cut-used :
    (M u s : ℕ)
    → u ≤ s
    → (n : ℕ) × (more : List Chunk) × (cut M u s ≡ chunk false n ∷ more)
      × (u ≤ n)
      × (M + n + M + total M more ≡ M + s + M)
cut-used M u s le = elim (Bool-cases (ltb (u + M + M) s)) [
  | inl split ↦ (
    u,
    chunk true (s - u - M - M) ∷ [],
    ground (arith, split),
    omega arith,
    ground (arith, split),
  )
  | inr whole ↦ (s, [], ground (arith, whole), le, omega arith)
]

-- Every chunk has a multiple of 4 bytes.
abbrev pub InWords : List Chunk → Type 0
InWords [] = Unit
InWords (chunk f s ∷ cs) = (s % 4 ≡ 0) × InWords cs

pub InWords-front : (xs ys : List Chunk) → InWords (xs ++ ys) → InWords xs
InWords-front [] ys h = tt
InWords-front (chunk f s ∷ xs) ys h = (h.0, InWords-front xs ys h.1)

pub total-InWords : (M : ℕ) (cs : List Chunk) → M % 4 ≡ 0 → InWords cs → total M cs % 4 ≡ 0
total-InWords M [] m h = refl
total-InWords M (chunk f s ∷ cs) m h = omega (arith, total-InWords M cs m h.1, h.0)

pub InWords-kept_part : (cs : List Chunk) → InWords cs → InWords (kept_part cs)
InWords-kept_part [] h = tt
InWords-kept_part (chunk true s ∷ []) h = tt
InWords-kept_part (chunk false s ∷ []) h = h
InWords-kept_part (chunk f s ∷ d ∷ cs) h = (h.0, InWords-kept_part (d ∷ cs) h.1)

-- a chunk in use stays, with all before it
pub kept_part-append :
    (front : List Chunk) (s : ℕ) (back : List Chunk)
    → kept_part (front ++ (chunk false s ∷ back)) ≡ front ++ (chunk false s ∷ kept_part back)
kept_part-append [] s [] = refl
kept_part-append [] s (d ∷ back) = refl
kept_part-append (c ∷ []) s back = ap (λ l. c ∷ l) (kept_part-append [] s back)
kept_part-append (c ∷ d ∷ front) s back = ap (λ l. c ∷ l) (kept_part-append (d ∷ front) s back)

-- In the heap that starts at `p`, the `s` bytes from `a` on are inside a free chunk.
abbrev pub IsFreeAt : (M p : ℕ) → List Chunk → (a s : ℕ) → Type 0
IsFreeAt M p [] a s = ⊥
IsFreeAt M p (chunk f n ∷ cs) a s =
    ((f ≡ true) × (p + M ≤ a) × (a + s ≤ p + M + n)) ⊎ IsFreeAt M (p + M + n + M) cs a s

pub joined-IsFreeAt :
    (M p : ℕ) (front : List Chunk) (s : ℕ) (back : List Chunk) (a : ℕ)
    → a ≡ p + total M front + M
    → IsFreeAt M p (join_before M front (join_after M s back)) a s
joined-IsFreeAt M p [] s [] a e = inl (refl, omega arith, omega arith)
joined-IsFreeAt M p [] s (chunk true t ∷ back) a e = inl (refl, omega arith, omega arith)
joined-IsFreeAt M p [] s (chunk false t ∷ back) a e = inl (refl, omega arith, omega arith)
joined-IsFreeAt M p (chunk true r ∷ []) s [] a e = inl (refl, omega arith, omega arith)
joined-IsFreeAt M p (chunk true r ∷ []) s (chunk true t ∷ back) a e =
    inl (refl, omega arith, omega arith)
joined-IsFreeAt M p (chunk true r ∷ []) s (chunk false t ∷ back) a e =
    inl (refl, omega arith, omega arith)
joined-IsFreeAt M p (chunk false r ∷ []) s back a e =
    inr (joined-IsFreeAt M (p + M + r + M) [] s back a (omega arith))
joined-IsFreeAt M p (chunk f r ∷ d ∷ front) s back a e =
    inr (joined-IsFreeAt M (p + M + r + M) (d ∷ front) s back a (omega arith))

-- What a chunk holds between its markers does not matter to the layout.
pub Layout-payload :
    (M : ℕ) (m g : Memory) (p stop : ℕ) (xs : List Chunk) (f : Bool) (s : ℕ) (ys : List Chunk)
    → 8 ≤ M
    → Layout M m p stop (xs ++ (chunk f s ∷ ys))
    → ((a : ℕ) → (a < p + total M xs + M) ⊎ (p + total M xs + M + s ≤ a) → g a ≡ m a)
    → Layout M g p stop (xs ++ (chunk f s ∷ ys))
Layout-payload M m g p stop xs f s ys wide lay same =
    let q = p + total M xs in
    let (_, here) = Layout-split M m p stop xs (chunk f s ∷ ys) lay in
    Layout-replace M wide m g p q (q + M + s + M) stop xs (chunk f s ∷ []) ys (chunk f s ∷ []) lay
      refl (omega arith) (λ a out. same a (omega arith))
      (
        same q (omega arith) ∙ here.0,
        same (q + 4) (omega arith) ∙ here.1,
        same (q + M + s) (omega arith) ∙ here.2,
        same (q + M + s + 4) (omega arith) ∙ here.3,
        refl,
      )
