-- ===== src/Libk/Malloc/Realloc/Moved.antt =====
-- From the new block of `realloc` on: the copy, and the old block that is freed.
use n00b_os.Prelude.{
  ℕ, ◌+◌, ◌-◌, ◌%◌, ◌≤◌, ◌<◌, ◌≡◌, refl, ◌≢◌, sym, ap, ◌∙◌, subst, ◌⊎◌, false, List, ◌∷◌, ◌++◌,
  arith, ltb, if◌then◌else◌,
}
use n00b_os.Kernel.Pages.{PageSource}
use n00b_os.Libk.Malloc.{sub32, aligned_size, Heap, Outcome, returned, free}
use n00b_os.Libk.Malloc.Layout.{Chunk, chunk, total, Layout}
use n00b_os.Libk.Malloc.Inv.{IsHeap}
use n00b_os.Libk.Malloc.Tail.{kept_part}
use n00b_os.Libk.Malloc.Kept.{joined}
use n00b_os.Libk.Malloc.Joins.{join_before, join_after}
use n00b_os.Libk.Malloc.Merge.{words}
use n00b_os.Libk.Malloc.Free.{free_joins}
use n00b_os.Libk.Malloc.Bytes.{byte_at, byte_at-word, copy_bytes, copy_bytes_lem, copy_bytes-words}
use n00b_os.Libk.Malloc.Realloc.{move, after_free, with_block}
use n00b_os.Libk.Malloc.Realloc.Places.{Layout-payload, IsFreeAt, joined-IsFreeAt}

module _ (P : PageSource) (max_align : ℕ) where
  abbrev M : ℕ
  M = aligned_size max_align 8

  -- what `realloc` comes to that moves a block of `s` bytes from `ptr`
  -- in a heap that then ends at `stop`
  pub record Moved (h : Heap P) (stop : ℕ) (pages : P.State) (ptr s size : ℕ) (out : Outcome P)
      : Type 0 where
    pub block : ℕ
    pub after : Heap P
    pub chunks : List Chunk
    -- it returns the new block, and leaves a heap and a free semaphore
    pub result : out ≡ returned block after
    pub heap : IsHeap P max_align after chunks
    pub ends : after.heap_end ≡ stop
    pub source : after.pages ≡ pages
    pub unlocked : after.heap_semaphore.lock ≡ 0
    -- the marker before the block says that it is in use, with its size
    pub used : after.memory (block - M) ≡ 0
    pub room : size ≤ after.memory (block - M + 4)
    -- it holds what the old one held
    pub contents :
        (i : ℕ) → i < size → i < s → byte_at after.memory (block + i) ≡ byte_at h.memory (ptr + i)
    -- which is free
    pub freed : IsFreeAt M after.heap_start chunks ptr s

  -- The new chunk is `n` bytes at `q`, behind `xs`; the old one `s` bytes behind `front`.
  module _ (tid size : ℕ) (h : Heap P) (xs ys front back : List Chunk) (n s : ℕ)
      (inv : IsHeap P max_align h (front ++ (chunk false s ∷ back)))
      (same : front ++ (chunk false s ∷ back) ≡ xs ++ (chunk false n ∷ ys))
      (unlocked : h.heap_semaphore.lock ≡ 0) (wide : 8 ≤ M) (enough : size ≤ n) (some : size ≢ 0)
      (al : (h.heap_start + total M xs + M) % 4 ≡ 0)
      (far : (h.heap_start + total M xs + M + n + M ≤ h.heap_start + total M (kept_part front))
        ⊎ (h.heap_start + total M front + M + joined M s back + M ≤ h.heap_start + total M xs))
      (apart : (h.heap_start + total M xs + M + n + M ≤ h.heap_start + total M front)
        ⊎ (h.heap_start + total M front + M + s + M ≤ h.heap_start + total M xs)) where
    abbrev q : ℕ
    q = h.heap_start + total M xs

    abbrev old : ℕ
    old = h.heap_start + total M front

    abbrev count : ℕ
    count = if ltb size s then size else s

    abbrev copied : Heap P
    copied = record h { memory = copy_bytes count 0 (q + M) (old + M) h.memory }

    few : (count ≤ size) × (count ≤ s)
    few = ground arith

    above : M ≤ h.heap_start
    above = omega (arith, inv.above)

    old_words : (h.memory (old + 4) ≡ s) × (old + M + s + M ≤ h.heap_end)
    old_words =
        let (w0, w1, w2, w3, end, rest) =
          words P max_align h wide inv.below above h.memory front back s false inv.chunks in
        (w1, omega (arith, end))

    new_words : (h.memory q ≡ 0) × (h.memory (q + 4) ≡ n)
    new_words =
        let (w0, w1, w2, w3, end, rest) =
          words P max_align h wide inv.below above h.memory xs ys n false
            (subst (Layout M h.memory h.heap_start h.heap_end) same inv.chunks) in
        (w0, w1)

    move-copied : move P max_align (q + M) h (old + M) size ≡ copied
    unfolding move
    move-copied =
        let here : sub32 (old + M) M ≡ old = omega (arith, old_words.1, inv.below) in
        ap
          (λ k. record h {
            memory = copy_bytes (if ltb size k then size else k) 0 (q + M) (old + M) h.memory;
          })
          (ap (λ a. h.memory (a + 4)) here ∙ old_words.0)

    copied-IsHeap : IsHeap P max_align copied (front ++ (chunk false s ∷ back))
    copied-IsHeap = record {
      chunks = subst (Layout M copied.memory h.heap_start h.heap_end) (sym same) (
          Layout-payload M h.memory copied.memory h.heap_start h.heap_end xs false n ys wide
            (subst (Layout M h.memory h.heap_start h.heap_end) same inv.chunks)
            (λ a out.
              copy_bytes-words count 0 (q + M) (old + M) h.memory a al (omega (arith, few))));
      above = inv.above;
      below = inv.below;
    }

    pub with_block-Moved :
        Moved h h.heap_end h.pages
          (old + M)
          s
          size
          (with_block P max_align tid (old + M) size (returned (q + M) h))
    unfolding with_block after_free
    with_block-Moved =
        let f = free_joins P max_align tid front back s copied-IsHeap unlocked wide in
        let kept : (a : ℕ) → q ≤ a → a < q + M + n → f.after.memory a ≡ copied.memory a =
          λ a lo hi. f.same_memory a (omega (arith, far)) in
        let marker : (a : ℕ) → a < q + M → copied.memory a ≡ h.memory a =
          λ a lo. copy_bytes-words count 0 (q + M) (old + M) h.memory a al (omega arith) in
        let skip : with_block P max_align tid (old + M) size (returned (q + M) h)
            ≡ after_free P max_align (q + M)
                (free P max_align tid (move P max_align (q + M) h (old + M) size) (old + M)) =
          ground (arith, inv.above, wide) in
        let place : q + M - M ≡ q = omega arith in
        record {
          block = q + M;
          after = f.after;
          chunks = join_before M front (join_after M s back);
          result =
              skip
              ∙ ap (λ x. after_free P max_align (q + M) (free P max_align tid x (old + M)))
                  move-copied
              ∙ ap (after_free P max_align (q + M)) f.result;
          heap = f.heap;
          ends = f.same_end;
          source = f.same_pages;
          unlocked = f.unlocked;
          used =
              ap f.after.memory place
              ∙ kept q (omega arith) (omega (arith, wide))
              ∙ marker q (omega (arith, wide))
              ∙ new_words.0;
          room = omega (
            arith,
            ap (λ a. f.after.memory (a + 4)) place,
            kept (q + 4) (omega arith) (omega (arith, wide)),
            marker (q + 4) (omega (arith, wide)),
            new_words.1,
          );
          contents = λ i lt lt'.
              byte_at-word copied.memory f.after.memory (q + M + i)
                (kept (q + M + i - (q + M + i) % 4) (omega (arith, al)) (omega arith))
              ∙ copy_bytes_lem count 0 (q + M) (old + M) h.memory i (omega (arith, few, apart))
                  (omega arith) (ground arith);
          freed =
              subst (λ p. IsFreeAt M p (join_before M front (join_after M s back)) (old + M) s)
                (sym f.same_start) (joined-IsFreeAt M h.heap_start front s back (old + M) refl);
        }
