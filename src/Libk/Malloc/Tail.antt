-- ===== src/Libk/Malloc/Tail.antt =====
-- The end of the heap: its last chunk, where that is free.
use n00b_os.Prelude.{
  ℕ, ◌+◌, ◌<◌, ◌≡◌, refl, subst, ◌⊎◌, inl, inr, Bool, true, false, not, ◌&&◌, List, [], ◌∷◌, arith,
  if◌then◌else◌, ◌==◌,
}
use n00b_os.Libk.Memory.{Memory}
use n00b_os.Libk.Malloc.Layout.{Chunk, chunk, total, Layout}
use n00b_os.Libk.Malloc.Search.{last_of}

-- a last chunk stays if it is in use
abbrev pub trim : Chunk → List Chunk
trim (chunk true s) = []
trim (chunk false s) = chunk false s ∷ []

-- the chunks that stay when a free chunk at the end is taken into the new space
abbrev pub kept_part : List Chunk → List Chunk
kept_part [] = []
kept_part (c ∷ []) = trim c
kept_part (c ∷ d ∷ cs) = c ∷ kept_part (d ∷ cs)

module _ (M : ℕ) where
  abbrev pub chunk_space : Chunk → ℕ
  chunk_space (chunk true s) = s + M + M
  chunk_space (chunk false s) = 0

  -- how many bytes that chunk takes
  abbrev pub tail_space : List Chunk → ℕ
  tail_space [] = 0
  tail_space (c ∷ []) = chunk_space c
  tail_space (c ∷ d ∷ cs) = tail_space (d ∷ cs)

  pub kept_part-Layout :
      (m : Memory) (p stop : ℕ) (cs : List Chunk)
      → Layout M m p stop cs
      → Layout M m p (p + total M (kept_part cs)) (kept_part cs)
        × (p + total M (kept_part cs) + tail_space cs ≡ stop)
  kept_part-Layout m p stop [] h = (omega arith, omega arith)
  kept_part-Layout m p stop (chunk true s ∷ []) h = (omega arith, omega arith)
  kept_part-Layout m p stop (chunk false s ∷ []) h =
      ((h.0, h.1, h.2, h.3, omega arith), omega arith)
  kept_part-Layout m p stop (chunk f s ∷ d ∷ cs) h =
      let (front, end) = kept_part-Layout m (p + M + s + M) stop (d ∷ cs) h.4 in
      let e : p + M + s + M + total M (kept_part (d ∷ cs))
          ≡ p + (M + s + M + total M (kept_part (d ∷ cs))) =
        omega arith in
      (
        (
          h.0,
          h.1,
          h.2,
          h.3,
          subst (λ t. Layout M m (p + M + s + M) t (kept_part (d ∷ cs))) e front,
        ),
        omega (arith, end),
      )

  -- the marker of the last chunk tells whether it is free
  abbrev pub Marked : Memory → ℕ → ℕ → List Chunk → Type 0
  Marked m last p cs =
      (0 < last)
      × (((m last ≡ 0) × (tail_space cs ≡ 0))
          ⊎ ((m last ≡ 1)
              × (last ≡ p + total M (kept_part cs))
              × (m (last + 4) + M + M ≡ tail_space cs)))

  pub last-Marked :
      (m : Memory) (p stop l : ℕ) (c : Chunk) (cs : List Chunk)
      → Layout M m p stop (c ∷ cs)
      → 0 < p
      → Marked m (last_of M p (c ∷ cs) l) p (c ∷ cs)
  last-Marked m p stop l (chunk true s) [] h pos = (pos, inr (h.0, omega arith, omega (arith, h.1)))
  last-Marked m p stop l (chunk false s) [] h pos = (pos, inl (h.0, refl))
  last-Marked m p stop l (chunk f s) (d ∷ cs) h pos =
      shift (last-Marked m (p + M + s + M) stop p d cs h.4 (omega arith))
    where
      shift :
          Marked m (last_of M (p + M + s + M) (d ∷ cs) p) (p + M + s + M) (d ∷ cs)
          → Marked m (last_of M (p + M + s + M) (d ∷ cs) p) p (chunk f s ∷ d ∷ cs)
      shift (lt, inl e) = (lt, inl e)
      shift (lt, inr (e, at, size)) = (lt, inr (e, omega arith, size))

  -- where `malloc` puts the new chunk, and how much space is free there
  abbrev pub merged : Memory → ℕ → Bool
  merged m last = not (last == 0) && not (m last == 0)

  pub region :
      (m : Memory) (p stop : ℕ) (cs : List Chunk)
      → Layout M m p stop cs
      → 0 < p
      → let last = last_of M p cs 0 in
        ((if merged m last then last else stop) ≡ p + total M (kept_part cs))
        × ((if merged m last then m (last + 4) + M + M else 0) ≡ tail_space cs)
  region m p stop [] h pos = (omega arith, omega arith)
  region m p stop (c ∷ cs) h pos =
      let marked = last-Marked m p stop 0 c cs h pos in
      let (_, end) = kept_part-Layout m p stop (c ∷ cs) h in
      (ground (arith, marked, end), ground (arith, marked))
