-- ===== src/Libk/Malloc/Realloc/Apart.antt =====
-- The old and the new block of `realloc`, one behind the other.
use n00b_os.Prelude.{
  ℕ, ◌+◌, ◌%◌, ◌≤◌, ◌<◌, ◌≡◌, ◌≢◌, refl, sym, ap, ◌∙◌, subst, inl, inr, true, false, List, ◌∷◌,
  ◌++◌, append_assoc, arith,
}
use n00b_os.Kernel.Pages.{PageSource}
use n00b_os.Libk.Malloc.{Outcome, aligned_size, Heap, returned}
use n00b_os.Libk.Malloc.Layout.{Chunk, chunk, total, total-append}
use n00b_os.Libk.Malloc.Place.{cut}
use n00b_os.Libk.Malloc.Inv.{IsHeap}
use n00b_os.Libk.Malloc.Kept.{kept_part-used, joined-used}
use n00b_os.Libk.Malloc.Bytes.{byte_at}
use n00b_os.Libk.Malloc.Realloc.{with_block}
use n00b_os.Libk.Malloc.Realloc.Places.{cut-used}
use n00b_os.Libk.Malloc.Realloc.Moved.{Moved, with_block-Moved}

module _ (P : PageSource) (max_align : ℕ) where
  abbrev M : ℕ
  M = aligned_size max_align 8

  -- What the block holds is the same in `h` as in `h'`.
  pub carry :
      (h h' : Heap P) (stop : ℕ) (pages : P.State) (ptr s size : ℕ) (out out' : Outcome P)
      → Moved P max_align h' h'.heap_end h'.pages ptr s size out
      → h'.heap_end ≡ stop
      → h'.pages ≡ pages
      → out' ≡ out
      → ((i : ℕ) → i < s → byte_at h'.memory (ptr + i) ≡ byte_at h.memory (ptr + i))
      → Moved P max_align h stop pages ptr s size out'
  carry h h' stop pages ptr s size out out' m ends source e same = record {
    block = m.block;
    after = m.after;
    chunks = m.chunks;
    result = e ∙ m.result;
    heap = m.heap;
    ends = m.ends ∙ ends;
    source = m.source ∙ source;
    unlocked = m.unlocked;
    used = m.used;
    room = m.room;
    contents = λ i lo hi. m.contents i lo hi ∙ same i hi;
    freed = m.freed;
  }

  -- `h` with the old block, `h'` after the new one was handed out of a chunk of `t` bytes behind `f`
  module _ (tid size u : ℕ) (h h' : Heap P) (front back f b : List Chunk) (s t : ℕ)
      (inv : IsHeap P max_align h' (f ++ (cut M u t ++ b))) (start : h'.heap_start ≡ h.heap_start)
      (unlocked : h'.heap_semaphore.lock ≡ 0) (wide : 8 ≤ M) (enough : size ≤ u) (fits : u ≤ t)
      (nz : size ≢ 0) (al : (h.heap_start + total M f + M) % 4 ≡ 0) where
    abbrev ptr : ℕ
    ptr = h.heap_start + total M front + M

    abbrev block : ℕ
    block = h.heap_start + total M f + M

    abbrev Goal : Type 0
    Goal =
        Moved P max_align h' h'.heap_end h'.pages ptr s size
          (with_block P max_align tid ptr size (returned block h'))

    -- from the addresses by the start of `h'`
    restart :
        (front' : List Chunk)
        → total M front' ≡ total M front
        → Moved P max_align h' h'.heap_end h'.pages (h'.heap_start + total M front' + M) s size (
            with_block P max_align tid
              (h'.heap_start + total M front' + M)
              size
              (returned (h'.heap_start + total M f + M) h'))
        → Goal
    restart front' e m =
        let to : h'.heap_start + total M front' + M ≡ ptr = omega (arith, e, start) in
        subst
          (λ a.
            Moved P max_align h' h'.heap_end h'.pages ptr s size
              (with_block P max_align tid ptr size (returned (a + total M f + M) h')))
          start
          (subst
            (λ a.
              Moved P max_align h' h'.heap_end h'.pages a s size
                (with_block P max_align tid a size (returned (h'.heap_start + total M f + M) h')))
            to m)

    -- the new chunk behind the old one
    pub behind : (g : List Chunk) → f ≡ front ++ (chunk false s ∷ g) → Goal
    behind g e =
        let (n, more, parts, le, sum) = cut-used M u t fits in
        let new = chunk false n ∷ (more ++ b) in
        let as_new = ap (λ c. f ++ (c ++ b)) parts in
        let as_old = as_new ∙ ap (λ l. l ++ new) e ∙ append_assoc front (chunk false s ∷ g) new in
        let far : total M f ≡ total M front + (M + s + M + total M g) =
          ap (total M) e ∙ total-append M front (chunk false s ∷ g) in
        restart front refl (
          with_block-Moved P max_align tid size h' f (more ++ b) front (g ++ new) n s
            (subst (IsHeap P max_align h') as_old inv) (sym as_old ∙ as_new) unlocked wide
            (omega arith) nz (omega (arith, start, al))
            (inr (omega (arith, far, joined-used M s g n (more ++ b)))) (inr (omega (arith, far))))

    -- and before it
    pub before :
        (g : List Chunk) → front ≡ f ++ (chunk true t ∷ g) → b ≡ g ++ (chunk false s ∷ back) → Goal
    before g e e' =
        let (n, more, parts, le, sum) = cut-used M u t fits in
        let old = chunk false s ∷ back in
        let front' = f ++ (chunk false n ∷ (more ++ g)) in
        let as_new = ap (λ c. f ++ (c ++ b)) parts in
        let as_old =
          as_new
          ∙ ap (λ l. f ++ (chunk false n ∷ (more ++ l))) e'
          ∙ ap (λ l. f ++ (chunk false n ∷ l)) (sym (append_assoc more g old))
          ∙ sym (append_assoc f (chunk false n ∷ (more ++ g)) old) in
        let size' : total M front' ≡ total M f + (M + n + M + (total M more + total M g)) =
          total-append M f (chunk false n ∷ (more ++ g))
          ∙ ap (λ k. total M f + (M + n + M + k)) (total-append M more g) in
        let was : total M front ≡ total M f + (M + t + M + total M g) =
          ap (total M) e ∙ total-append M f (chunk true t ∷ g) in
        restart front' (omega (arith, size', was, sum)) (
          with_block-Moved P max_align tid size h' f (more ++ b) front' back n s
            (subst (IsHeap P max_align h') as_old inv) (sym as_old ∙ as_new) unlocked wide
            (omega arith) nz (omega (arith, start, al))
            (inl (omega (arith, kept_part-used M f n (more ++ g)))) (inl (omega (arith, size'))))
