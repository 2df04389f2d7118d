-- ===== src/Libk/Malloc/Free.antt =====
-- `free` joins the chunk that it releases with the free chunks on either side.
use n00b_os.Prelude.{
  ℕ, ◌+◌, ◌≤◌, ◌≡◌, refl, ◌∙◌, ◌⊎◌, ◌<◌, subst, true, false, List, [], ◌∷◌, ◌++◌, arith, some,
}
use n00b_os.Libk.Memory.{Memory}
use n00b_os.Kernel.Pages.{PageSource}
use n00b_os.Kernel.Semaphore.{semaphore_acquire, semaphore_release}
use n00b_os.Libk.Malloc.{
  u32, sub32, aligned_size, Heap, Outcome, returned, merge_after, merge_before, free,
}
use n00b_os.Libk.Malloc.Layout.{Chunk, chunk, total, Layout}
use n00b_os.Libk.Malloc.Inv.{IsHeap}
use n00b_os.Libk.Malloc.Tail.{kept_part}
use n00b_os.Libk.Malloc.Kept.{joined, join_after-joined, kept_part-total, merge_after-frame}
use n00b_os.Libk.Malloc.Joins.{join_after, join_before}
use n00b_os.Libk.Malloc.Merge.{words, merge_after-join, merge_before-join}

-- `join_after` gives a free chunk with others behind it
join_after-cons :
    (M s : ℕ) (cs : List Chunk)
    → (n : ℕ) × (rest : List Chunk) × (join_after M s cs ≡ chunk true n ∷ rest)
join_after-cons M s [] = (s, [], refl)
join_after-cons M s (chunk true t ∷ cs) = (s + t + M + M, cs, refl)
join_after-cons M s (chunk false t ∷ cs) = (s, chunk false t ∷ cs, refl)

module _ (P : PageSource) (max_align : ℕ) where
  abbrev marker : ℕ
  marker = aligned_size max_align 8

  -- what a call of `free` does with the chunk between `front` and `back`
  pub record Freed (h : Heap P) (front : List Chunk) (s : ℕ) (back : List Chunk) (out : Outcome P)
      : Type 0 where
    pub after : Heap P
    pub result : out ≡ returned 0 after
    pub heap : IsHeap P max_align after (join_before marker front (join_after marker s back))
    pub same_start : after.heap_start ≡ h.heap_start
    pub same_end : after.heap_end ≡ h.heap_end
    pub same_pages : after.pages ≡ h.pages
    pub unlocked : after.heap_semaphore.lock ≡ 0
    -- it writes in the joined chunk alone
    pub same_memory :
        (a : ℕ)
        → (a < h.heap_start + total marker (kept_part front))
          ⊎ (h.heap_start + total marker front + marker + joined marker s back + marker ≤ a)
        → after.memory a ≡ h.memory a

  module _ (tid : ℕ) {h : Heap P} (front back : List Chunk) (s : ℕ)
      (inv : IsHeap P max_align h (front ++ (chunk false s ∷ back)))
      (unlocked : h.heap_semaphore.lock ≡ 0) (wide : 8 ≤ marker) where
    abbrev start : ℕ
    start = h.heap_start + total marker front

    abbrev locked : Heap P
    locked = record h { heap_semaphore = record { lock = tid } }

    free-merged :
        (g : Memory)
        → merge_before P max_align locked start (merge_after P max_align locked start) ≡ some g
        → free P max_align tid h (start + marker)
          ≡ returned 0
              (record h { memory = g; heap_semaphore = semaphore_release (record { lock = tid }) })
    unfolding free semaphore_acquire
    free-merged g e =
        let (w0, w1, w2, w3, end, _) =
          words P max_align h wide inv.below (omega (arith, inv.above)) h.memory front back s false
            inv.chunks in
        let here : sub32 (start + marker) marker ≡ start = omega (arith, end, inv.below) in
        let there : u32 (start + marker + h.memory (start + 4)) + 4 ≡ start + marker + s + 4 =
          omega (arith, end, w1, inv.below) in
        ground (arith, here, there, w3, e)

    -- `free` of a chunk in use, given its bytes, makes it free and joins it with the free chunks
    -- next to it; no other chunk changes, and the semaphore is released.
    pub free_joins : Freed h front s back (free P max_align tid h (start + marker))
    free_joins =
        let below = inv.below in
        let above : marker ≤ h.heap_start = omega (arith, inv.above) in
        let (n, rest, shape) = join_after-cons marker s back in
        let merged = merge_after-join P max_align locked wide below above front back s inv.chunks in
        let (g, e, lay, frame) =
          merge_before-join P max_align locked wide below above
            (merge_after P max_align locked start) front rest n
            (subst
              (λ cs.
                Layout marker (merge_after P max_align locked start) h.heap_start h.heap_end
                  (front ++ cs))
              shape merged) in
        record {
          after = record h {
            memory = g;
            heap_semaphore = semaphore_release (record { lock = tid });
          };
          result = free-merged g e;
          heap = record { chunks = rw shape lay; above = inv.above; below = below };
          same_start = refl;
          same_end = refl;
          same_pages = refl;
          unlocked = unfold semaphore_release in refl;
          same_memory = λ a out.
              frame a (omega (arith, join_after-joined marker s back n rest shape))
              ∙ merge_after-frame P max_align locked wide below above front back s inv.chunks a
                  (omega (arith, kept_part-total marker front));
        }
