-- ===== src/Libk/Malloc/Kept.antt =====
-- Where `free` does not write: outside the chunk that it makes of a chunk and its free neighbours.
use n00b_os.Prelude.{
  ℕ, ◌+◌, ◌^◌, ◌≤◌, ◌<◌, ◌≡◌, ap, ◌∙◌, ◌⊎◌, true, false, List, [], ◌∷◌, ◌++◌, arith,
}
use n00b_os.Libk.Memory.{store}
use n00b_os.Kernel.Pages.{PageSource}
use n00b_os.Libk.Malloc.{aligned_size, Heap, merge_after}
use n00b_os.Libk.Malloc.Layout.{Chunk, chunk, total, Layout, mark_chunck-frame}
use n00b_os.Libk.Malloc.Tail.{kept_part}
use n00b_os.Libk.Malloc.Joins.{join_after}
use n00b_os.Libk.Malloc.Merge.{words, release, merge_end, merge_used, merge_free}

abbrev first_size : List Chunk → ℕ
first_size [] = 0
first_size (chunk f s ∷ cs) = s

-- the size of a chunk of `s` bytes joined with the one after it, if that is free
abbrev pub joined : ℕ → ℕ → List Chunk → ℕ
joined M s [] = s
joined M s (chunk true t ∷ cs) = s + t + M + M
joined M s (chunk false t ∷ cs) = s

pub join_after-joined :
    (M s : ℕ) (cs : List Chunk) (n : ℕ) (rest : List Chunk)
    → join_after M s cs ≡ chunk true n ∷ rest
    → joined M s cs ≡ n
join_after-joined M s [] n rest e = ap first_size e
join_after-joined M s (chunk true t ∷ cs) n rest e = ap first_size e
join_after-joined M s (chunk false t ∷ cs) n rest e = ap first_size e

pub kept_part-total : (M : ℕ) (cs : List Chunk) → total M (kept_part cs) ≤ total M cs
kept_part-total M [] = omega arith
kept_part-total M (chunk true s ∷ []) = omega arith
kept_part-total M (chunk false s ∷ []) = omega arith
kept_part-total M (chunk f s ∷ d ∷ cs) = omega (arith, kept_part-total M (d ∷ cs))

-- a chunk in use before stays outside
pub kept_part-used :
    (M : ℕ) (xs : List Chunk) (u : ℕ) (ys : List Chunk)
    → total M xs + (M + u + M) ≤ total M (kept_part (xs ++ (chunk false u ∷ ys)))
kept_part-used M [] u [] = omega arith
kept_part-used M [] u (d ∷ ys) = omega arith
kept_part-used M (chunk f s ∷ []) u ys = omega (arith, kept_part-used M [] u ys)
kept_part-used M (chunk f s ∷ d ∷ xs) u ys = omega (arith, kept_part-used M (d ∷ xs) u ys)

-- and one behind
pub joined-used :
    (M s : ℕ) (xs : List Chunk) (u : ℕ) (ys : List Chunk)
    → joined M s (xs ++ (chunk false u ∷ ys)) ≤ s + total M xs
joined-used M s [] u ys = omega arith
joined-used M s (chunk true t ∷ xs) u ys = omega arith
joined-used M s (chunk false t ∷ xs) u ys = omega arith

module _ (P : PageSource) (max_align : ℕ) (h : Heap P) (wide : 8 ≤ aligned_size max_align 8)
    (below : h.heap_end < 2 ^ 32) (above : aligned_size max_align 8 ≤ h.heap_start) where
  abbrev M : ℕ
  M = aligned_size max_align 8

  abbrev at : List Chunk → ℕ
  at front = h.heap_start + total M front

  pub merge_after-frame :
      (front back : List Chunk) (s : ℕ)
      → Layout M h.memory h.heap_start h.heap_end (front ++ (chunk false s ∷ back))
      → (a : ℕ) → (a < at front) ⊎ (at front + M + joined M s back + M ≤ a)
      → merge_after P max_align h (at front) a ≡ h.memory a
  merge_after-frame front [] s lay a out =
      let new = release P max_align h wide below above front [] s lay in
      let (w0, w1, w2, w3, end, _) =
        words P max_align h wide below above (store h.memory (at front) 1) front [] s true new in
      ap (λ m. m a) (merge_end P max_align h wide below above (at front) s w1 (omega (arith, end)))
      ∙ ground arith
  merge_after-frame front (chunk false t ∷ back) s lay a out =
      let new = release P max_align h wide below above front (chunk false t ∷ back) s lay in
      let (w0, w1, w2, w3, end, rest) =
        words P max_align h wide below above (store h.memory (at front) 1) front
          (chunk false t ∷ back) s true new in
      ap (λ m. m a)
        (merge_used P max_align h wide below above (at front) s w1 (omega (arith, end)) rest.0)
      ∙ ground arith
  merge_after-frame front (chunk true t ∷ back) s lay a out =
      let new = release P max_align h wide below above front (chunk true t ∷ back) s lay in
      let (w0, w1, w2, w3, end, rest) =
        words P max_align h wide below above (store h.memory (at front) 1) front
          (chunk true t ∷ back) s true new in
      ap (λ m. m a)
        (merge_free P max_align h wide below above (at front) s w1 t (omega (arith, end)) rest.0
          rest.1 (omega (arith, end, below)))
      ∙ mark_chunck-frame max_align (store h.memory (at front) 1) (at front) (s + t + M + M) true
          wide (omega (arith, end, below)) a (omega arith)
      ∙ ground arith
