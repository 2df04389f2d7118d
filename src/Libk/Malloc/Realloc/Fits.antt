-- ===== src/Libk/Malloc/Realloc/Fits.antt =====
-- `realloc` where a free chunk is large enough for the new block.
use n00b_os.Prelude.{
  ℕ, ◌+◌, ◌-◌, ◌%◌, ◌≤◌, ◌<◌, ◌≡◌, ◌≢◌, ap, subst, ◌⊎◌, inl, inr, true, false, List, ◌∷◌, ◌++◌,
  length, arith, ◌==◌, if◌then◌else◌,
}
use n00b_os.Kernel.Pages.{PageSource}
use n00b_os.Libk.Malloc.{aligned_size, Heap, returned, malloc}
use n00b_os.Libk.Malloc.Layout.{Chunk, chunk, total, total-append}
use n00b_os.Libk.Malloc.Search.{NoneFits}
use n00b_os.Libk.Malloc.Inv.{IsHeap}
use n00b_os.Libk.Malloc.Fit.{Served, malloc_fits}
use n00b_os.Libk.Malloc.Bytes.{byte_at, byte_at-word}
use n00b_os.Libk.Malloc.Realloc.{with_block, realloc}
use n00b_os.Libk.Malloc.Realloc.Places.{order, InWords, InWords-front, total-InWords}
use n00b_os.Libk.Malloc.Realloc.Moved.{Moved}
use n00b_os.Libk.Malloc.Realloc.Apart.{behind, before, carry}

module _ (P : PageSource) (max_align : ℕ) where
  abbrev M : ℕ
  M = aligned_size max_align 8

  module _ (fuel tid size : ℕ) (h : Heap P) (front back : List Chunk) (s : ℕ)
      (inv : IsHeap P max_align h (front ++ (chunk false s ∷ back)))
      (words : InWords (front ++ (chunk false s ∷ back))) (marker : M % 4 ≡ 0)
      (start : h.heap_start % 4 ≡ 0) (unlocked : h.heap_semaphore.lock ≡ 0) (wide : 8 ≤ M)
      (nz : size ≢ 0) (large : size ≤ aligned_size max_align size)
      (fits : ¬ NoneFits (aligned_size max_align size) (front ++ (chunk false s ∷ back)))
      (lt : length (front ++ (chunk false s ∷ back)) < fuel) where
    abbrev u : ℕ
    u = aligned_size max_align size

    abbrev old : ℕ
    old = h.heap_start + total M front + M

    served :
        Served P max_align h
          (front ++ (chunk false s ∷ back))
          u
          (malloc P max_align fuel tid h size)
    served = malloc_fits P max_align fuel tid size inv unlocked wide nz fits lt

    reduce :
        realloc P max_align fuel tid h old size
        ≡ with_block P max_align tid old size
            (returned (h.heap_start + total M served.front + M) served.after)
    unfolding realloc
    reduce =
        let block : (if size == 0 then returned 0 h else malloc P max_align fuel tid h size)
            ≡ returned (h.heap_start + total M served.front + M) served.after =
          ground (arith, nz, served.result) in
        ap (with_block P max_align tid old size) block

    -- the old chunk lies before or behind the one that is taken
    abbrev Ordered : Type 0
    Ordered =
        (total M front + (M + s + M) ≤ total M served.front)
        ⊎ (total M served.front + (M + served.s + M) ≤ total M front)

    moved :
        Moved P max_align served.after served.after.heap_end served.after.pages old s size (
          with_block P max_align tid old size
            (returned (h.heap_start + total M served.front + M) served.after))
        × Ordered
    moved =
        let al : (h.heap_start + total M served.front + M) % 4 ≡ 0 = omega (
          arith,
          start,
          marker,
          total-InWords M served.front marker (
              InWords-front served.front (chunk true served.s ∷ served.back)
                (subst InWords served.was words)),
        ) in
        elim (order front back served.front served.back s served.s served.was) [
          | inl (g, e, e') ↦ (
            behind P max_align tid size u h served.after front back served.front served.back s
                served.s served.heap served.same_start served.unlocked wide large served.enough nz
                al g e,
            inl (omega (arith, ap (total M) e, total-append M front (chunk false s ∷ g))),
          )
          | inr (g, e, e') ↦ (
            before P max_align tid size u h served.after front back served.front served.back s
                served.s served.heap served.same_start served.unlocked wide large served.enough nz
                al g e e',
            inr (
                omega
                  (arith, ap (total M) e, total-append M served.front (chunk true served.s ∷ g))),
          )
        ]

    same_contents :
        (i : ℕ) → i < s → byte_at served.after.memory (old + i) ≡ byte_at h.memory (old + i)
    same_contents i lt' =
        let al = total-InWords M front marker (InWords-front front (chunk false s ∷ back) words) in
        byte_at-word h.memory served.after.memory (old + i)
          (served.same_memory (old + i - (old + i) % 4) (omega (arith, moved.1, al, start, marker)))

    -- `realloc` of a block in use of `s` bytes, the heap well formed, the size not 0 and not wrapped when it
    -- is rounded up, some free chunk large enough, the sizes of all chunks, the marker and the start of
    -- the heap multiples of 4, the marker 8 bytes or more, the semaphore free, and more fuel than chunks: it
    -- returns a block in use with room for `size` bytes, of which the first `min size s` are those that the
    -- old block held before the call, frees the old block, leaves a well-formed heap and a free semaphore,
    -- and takes no page.
    pub realloc_fits :
        Moved P max_align h h.heap_end h.pages old s size (realloc P max_align fuel tid h old size)
    realloc_fits =
        carry P max_align h served.after h.heap_end h.pages old s size _ _ moved.0 served.same_end
          served.same_pages reduce same_contents
