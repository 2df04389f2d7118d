-- ===== src/Libk/Malloc/Realloc/Grows.antt =====
-- `realloc` where the heap grows for the new block.
use n00b_os.Prelude.{
  ℕ, ◌+◌, ◌*◌, ◌-◌, ◌%◌, ◌^◌, ◌≤◌, ◌<◌, max, ◌≡◌, ◌≢◌, refl, sym, ap, ◌∙◌, subst, ◌⊎◌, inl, inr,
  false, List, [], ◌∷◌, ◌++◌, append-nil, length, arith, ◌==◌, if◌then◌else◌,
}
use n00b_os.Kernel.Pages.{PageSource}
use n00b_os.Libk.Malloc.{page_size, aligned_size, Heap, Outcome, returned, panicked, malloc}
use n00b_os.Libk.Malloc.Layout.{Chunk, chunk, total, total-append}
use n00b_os.Libk.Malloc.Search.{NoneFits}
use n00b_os.Libk.Malloc.Place.{cut}
use n00b_os.Libk.Malloc.Tail.{kept_part, tail_space}
use n00b_os.Libk.Malloc.Inv.{IsHeap}
use n00b_os.Libk.Malloc.Paged.{Mapped, Stuck}
use n00b_os.Libk.Malloc.Extend.{Extended}
use n00b_os.Libk.Malloc.NoFit.{malloc_extends}
use n00b_os.Libk.Malloc.Bytes.{byte_at-word}
use n00b_os.Libk.Malloc.Realloc.{with_block, realloc}
use n00b_os.Libk.Malloc.Realloc.Places.{
  InWords, InWords-front, InWords-kept_part, total-InWords, kept_part-append,
}
use n00b_os.Libk.Malloc.Realloc.Moved.{Moved}
use n00b_os.Libk.Malloc.Realloc.Apart.{behind, carry}

module _ (P : PageSource) (max_align : ℕ) where
  abbrev M : ℕ
  M = aligned_size max_align 8

  module _ (fuel tid size : ℕ) (h : Heap P) (front back : List Chunk) (s : ℕ)
      (inv : IsHeap P max_align h (front ++ (chunk false s ∷ back)))
      (words : InWords (front ++ (chunk false s ∷ back))) (marker : M % 4 ≡ 0)
      (start : h.heap_start % 4 ≡ 0) (unlocked : h.heap_semaphore.lock ≡ 0) (wide : 8 ≤ M)
      (nz : size ≢ 0) (large : size ≤ aligned_size max_align size)
      (none_fits : NoneFits (aligned_size max_align size) (front ++ (chunk false s ∷ back)))
      (lt : length (front ++ (chunk false s ∷ back)) < fuel) where
    abbrev u : ℕ
    u = aligned_size max_align size

    abbrev old : ℕ
    old = h.heap_start + total M front + M

    abbrev chunks : List Chunk
    chunks = front ++ (chunk false s ∷ back)

    reduce :
        (out : Outcome P)
        → malloc P max_align fuel tid h size ≡ out
        → realloc P max_align fuel tid h old size ≡ with_block P max_align tid old size out
    unfolding realloc
    reduce out e =
        let block : (if size == 0 then returned 0 h else malloc P max_align fuel tid h size) ≡ out =
          ground (arith, nz, e) in
        ap (with_block P max_align tid old size) block

    refused :
        malloc P max_align fuel tid h size ≡ panicked
        → realloc P max_align fuel tid h old size ≡ panicked
    unfolding with_block
    refused e = reduce panicked e

    -- The heap is larger by the least number of pages, and holds the moved block.
    abbrev Grown : Outcome P → Type 0
    Grown out =
        (k : ℕ) × (pages : P.State) × (u + M + M ≤ tail_space M chunks + k * page_size)
        × (tail_space M chunks + k * page_size < max (tail_space M chunks) (u + M + M) + page_size)
        × Mapped P k h.heap_end h.pages pages
        × Moved P max_align h (h.heap_end + k * page_size) pages old s size out

    extended :
        Extended P max_align h chunks u (malloc P max_align fuel tid h size)
        → Grown (realloc P max_align fuel tid h old size)
    extended x =
        let f = kept_part chunks in
        let split = kept_part-append front s back in
        let al : (h.heap_start + total M f + M) % 4 ≡ 0 =
          omega (arith, start, marker, total-InWords M f marker (InWords-kept_part chunks words)) in
        let far : total M f ≡ total M front + (M + s + M + total M (kept_part back)) =
          ap (total M) split ∙ total-append M front (chunk false s ∷ kept_part back) in
        let al' = total-InWords M front marker (InWords-front front (chunk false s ∷ back) words) in
        let new =
          subst (λ l. IsHeap P max_align x.after (f ++ l)) (sym (append-nil (cut M u x.s)))
            x.heap in
        let m =
          carry P max_align h x.after (h.heap_end + x.k * page_size) x.after.pages old s size _ _
            (behind P max_align tid size u h x.after front back f [] s x.s new x.same_start
              x.unlocked wide large x.enough nz al (kept_part back) split)
            x.grown refl (reduce _ x.result)
            (λ i lt'.
              byte_at-word h.memory x.after.memory (old + i) (
                x.same_memory (old + i - (old + i) % 4)
                  (omega (arith, far, al', start, marker)))) in
        (x.k, x.after.pages, x.reached, x.least, x.mapped, m)

    -- `realloc` of a block in use of `s` bytes, the heap well formed, the size not 0 and not wrapped when it
    -- is rounded up, no free chunk large enough, the sizes of all chunks, the marker and the start of the
    -- heap multiples of 4, the marker 8 bytes or more, the semaphore free, and fuel for the chunks and for the
    -- new pages, whose addresses do not wrap: it panics where a page that it needs is not left or cannot be
    -- mapped, or the heap grows by the least number of pages, each new, zeroed and mapped behind the last; it
    -- returns a block in use with room for `size` bytes, of which the first `min size s` are those that the
    -- old block held before the call, frees the old block, and leaves a well-formed heap and a free
    -- semaphore.
    pub realloc_grows :
        max (tail_space M chunks) (u + M + M) + page_size ≤ tail_space M chunks + fuel * page_size
        → h.heap_end + (u + M + M) + page_size < 2 ^ 32
        → ((realloc P max_align fuel tid h old size ≡ panicked)
            × Stuck P h (tail_space M chunks) (u + M + M))
          ⊎ Grown (realloc P max_align fuel tid h old size)
    realloc_grows rounds space =
        elim (malloc_extends P max_align fuel tid size inv unlocked wide nz none_fits lt rounds
          space) [ inl (e, stuck) ↦ inl (refused e, stuck) | inr x ↦ inr (extended x) ]
