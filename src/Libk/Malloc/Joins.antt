-- ===== src/Libk/Malloc/Joins.antt =====
-- The chunks of a heap after `free` has joined free neighbours.
use n00b_os.Prelude.{ℕ, ◌+◌, ◌≡◌, refl, ap, ◌⊎◌, inl, inr, true, List, [], ◌∷◌, ◌++◌}
use n00b_os.Libk.Malloc.Layout.{Chunk, chunk}
use n00b_os.Libk.Malloc.Tail.{kept_part}

-- a free chunk of `s` bytes joined with the chunk after it, if that is free
abbrev pub join_after : ℕ → ℕ → List Chunk → List Chunk
join_after M s (chunk true t ∷ cs) = chunk true (s + t + M + M) ∷ cs
join_after M s cs = chunk true s ∷ cs

-- a chunk in front of others, the first of which is free
abbrev pub attach : ℕ → Chunk → List Chunk → List Chunk
attach M (chunk true r) (chunk f s ∷ cs) = chunk true (s + r + M + M) ∷ cs
attach M c cs = c ∷ cs

-- and joined to the last chunk before it, if that is free
abbrev pub join_before : ℕ → List Chunk → List Chunk → List Chunk
join_before M [] cs = cs
join_before M (c ∷ []) cs = attach M c cs
join_before M (c ∷ d ∷ front) cs = c ∷ join_before M (d ∷ front) cs

pub last_cases :
    (cs : List Chunk) → (cs ≡ []) ⊎ ((front : List Chunk) × (c : Chunk) × (cs ≡ front ++ (c ∷ [])))
last_cases [] = inl refl
last_cases (c ∷ cs) = elim (last_cases cs) [
  | inl e ↦ inr ([], c, ap (λ r. c ∷ r) e)
  | inr (front, d, e) ↦ inr (c ∷ front, d, ap (λ r. c ∷ r) e)
]

pub join_before_last :
    (M : ℕ) (front : List Chunk) (c : Chunk) (cs : List Chunk)
    → join_before M (front ++ (c ∷ [])) cs ≡ front ++ attach M c cs
join_before_last M [] c cs = refl
join_before_last M (b ∷ []) c cs = refl
join_before_last M (b ∷ d ∷ front) c cs = ap (λ r. b ∷ r) (join_before_last M (d ∷ front) c cs)

pub kept_part-free : (front : List Chunk) (r : ℕ) → kept_part (front ++ (chunk true r ∷ [])) ≡ front
kept_part-free [] r = refl
kept_part-free (b ∷ []) r = refl
kept_part-free (b ∷ d ∷ front) r = ap (λ l. b ∷ l) (kept_part-free (d ∷ front) r)
