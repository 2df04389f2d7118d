-- ===== src/Libk/Malloc/Merge.antt =====
-- Joining a chunk with the free chunks next to it.
use n00b_os.Prelude.{
  ℕ, ◌+◌, ◌^◌, ◌≤◌, ◌<◌, ◌≡◌, refl, sym, ap, subst, ◌⊎◌, inl, inr, Bool, true, false, List, [], ◌∷◌,
  ◌++◌, append_assoc, arith, some, if◌then◌else◌,
}
use n00b_os.Libk.Memory.{Memory, store}
use n00b_os.Kernel.Pages.{PageSource}
use n00b_os.Libk.Malloc.{flag, canary, aligned_size, mark_chunck, Heap, merge_after, merge_before}
use n00b_os.Libk.Malloc.Tail.{kept_part}
use n00b_os.Libk.Malloc.Layout.{
  Chunk, chunk, total, total-append, Layout, Layout-total, Layout-split, Layout-replace,
  mark_chunck-Layout, mark_chunck-frame,
}
use n00b_os.Libk.Malloc.Joins.{
  join_after, join_before, last_cases, join_before_last, kept_part-free,
}

module _ (P : PageSource) (max_align : ℕ) (h : Heap P) (wide : 8 ≤ aligned_size max_align 8)
    (below : h.heap_end < 2 ^ 32) (above : aligned_size max_align 8 ≤ h.heap_start) where
  abbrev M : ℕ
  M = aligned_size max_align 8

  abbrev at : List Chunk → ℕ
  at front = h.heap_start + total M front

  -- two free neighbours become one
  pub join :
      (m : Memory) (front back : List Chunk) (s t : ℕ)
      → Layout M m h.heap_start h.heap_end (front ++ (chunk true s ∷ chunk true t ∷ back))
      → (n : ℕ) → n ≡ s + t + M + M
      → Layout M
          (mark_chunck max_align m (at front) n true)
          h.heap_start
          h.heap_end
          (front ++ (chunk true n ∷ back))
  join m front back s t lay n e =
      Layout-replace M wide m (mark_chunck max_align m (at front) n true) h.heap_start (at front)
        (at front + M + n + M) h.heap_end front (chunk true s ∷ chunk true t ∷ []) back
        (chunk true n ∷ []) lay refl (omega arith)
        (mark_chunck-frame max_align m (at front) n true wide fits)
        (mark_chunck-Layout max_align m (at front) n true wide fits)
    where
      fits : at front + M + n + M ≤ 2 ^ 32
      fits = omega (
        arith,
        e,
        below,
        total-append M front (chunk true s ∷ chunk true t ∷ back),
        Layout-total M m h.heap_start h.heap_end (front ++ (chunk true s ∷ chunk true t ∷ back))
            lay,
      )

  -- the words of one chunk among the others
  pub words :
      (m : Memory) (front back : List Chunk) (s : ℕ) (f : Bool)
      → Layout M m h.heap_start h.heap_end (front ++ (chunk f s ∷ back))
      → (m (at front) ≡ flag f)
        × (m (at front + 4) ≡ s)
        × (m (at front + M + s) ≡ s)
        × (m (at front + M + s + 4) ≡ canary)
        × (at front + M + s + M + total M back ≡ h.heap_end)
        × Layout M m (at front + M + s + M) h.heap_end back
  words m front back s f lay =
      let (_, rest) = Layout-split M m h.heap_start h.heap_end front (chunk f s ∷ back) lay in
      (
        rest.0,
        rest.1,
        rest.2,
        rest.3,
        Layout-total M m (at front + M + s + M) h.heap_end back rest.4,
        rest.4,
      )

  -- the first write of `free`
  pub release :
      (front back : List Chunk) (s : ℕ)
      → Layout M h.memory h.heap_start h.heap_end (front ++ (chunk false s ∷ back))
      → Layout M
          (store h.memory (at front) 1)
          h.heap_start
          h.heap_end
          (front ++ (chunk true s ∷ back))
  release front back s lay =
      let (w0, w1, w2, w3, _, _) = words h.memory front back s false lay in
      Layout-replace M wide h.memory (store h.memory (at front) 1) h.heap_start (at front)
        (at front + M + s + M) h.heap_end front (chunk false s ∷ []) back (chunk true s ∷ []) lay
        refl (omega arith) (λ a out. ground arith) (ground arith)

  module _ (q s : ℕ) (size : store h.memory q 1 (q + 4) ≡ s) where
    pub merge_end : q + M + s + M ≡ h.heap_end → merge_after P max_align h q ≡ store h.memory q 1
    unfolding merge_after
    merge_end e = ground arith

    pub merge_used :
        q + M + s + M < h.heap_end
        → store h.memory q 1 (q + M + s + M) ≡ 0
        → merge_after P max_align h q ≡ store h.memory q 1
    unfolding merge_after
    merge_used lt e = ground arith

    pub merge_free :
        (t : ℕ)
        → q + M + s + M < h.heap_end
        → store h.memory q 1 (q + M + s + M) ≡ 1
        → store h.memory q 1 (q + M + s + M + 4) ≡ t
        → s + t + M + M < 2 ^ 32
        → merge_after P max_align h q
          ≡ mark_chunck max_align (store h.memory q 1) q (s + t + M + M) true
    unfolding merge_after
    merge_free t lt e et small = ground arith

  pub merge_after-join :
      (front back : List Chunk) (s : ℕ)
      → Layout M h.memory h.heap_start h.heap_end (front ++ (chunk false s ∷ back))
      → Layout M
          (merge_after P max_align h (at front))
          h.heap_start
          h.heap_end
          (front ++ join_after M s back)
  merge_after-join front [] s lay =
      let (w0, w1, w2, w3, end, _) =
        words (store h.memory (at front) 1) front [] s true (release front [] s lay) in
      rw (merge_end (at front) s w1 (omega (arith, end))) (release front [] s lay)
  merge_after-join front (chunk false t ∷ back) s lay =
      let new = release front (chunk false t ∷ back) s lay in
      let (w0, w1, w2, w3, end, rest) =
        words (store h.memory (at front) 1) front (chunk false t ∷ back) s true new in
      rw (merge_used (at front) s w1 (omega (arith, end)) rest.0) new
  merge_after-join front (chunk true t ∷ back) s lay =
      let new = release front (chunk true t ∷ back) s lay in
      let (w0, w1, w2, w3, end, rest) =
        words (store h.memory (at front) 1) front (chunk true t ∷ back) s true new in
      rw
        (merge_free (at front) s w1 t (omega (arith, end)) rest.0 rest.1
          (omega (arith, end, below)))
        (join (store h.memory (at front) 1) front back s t new (s + t + M + M) refl)

  -- the chunk before, which is known by its end marker
  module _ (m : Memory) (p r s : ℕ) (f : Bool) (begins : h.heap_start ≤ p)
      (ends : p + M + r + M + M + s + M ≤ h.heap_end) (w0 : m p ≡ flag f) (w1 : m (p + 4) ≡ r)
      (w2 : m (p + M + r) ≡ r) (w3 : m (p + M + r + 4) ≡ canary)
      (size : m (p + M + r + M + 4) ≡ s) where
    merge_before_lem :
        merge_before P max_align h (p + M + r + M) m
        ≡ some (if f then mark_chunck max_align m p (s + r + M + M) true else m)
    unfolding merge_before
    merge_before_lem = ground arith

  pub merge_before_first : (m : Memory) → merge_before P max_align h h.heap_start m ≡ some m
  unfolding merge_before
  merge_before_first m = ground arith

  -- what the second merge of `free` leaves; it writes in the joined chunk alone
  abbrev pub Merged : Memory → List Chunk → ℕ → List Chunk → Type 0
  Merged m front s back =
      (g : Memory) × (merge_before P max_align h (at front) m ≡ some g)
      × Layout M g h.heap_start h.heap_end (join_before M front (chunk true s ∷ back))
      × ((a : ℕ) → (a < at (kept_part front)) ⊎ (at front + M + s + M ≤ a) → g a ≡ m a)

  pub merge_before-snoc :
      (m : Memory) (front back : List Chunk) (r s : ℕ) (f : Bool)
      → Layout M m h.heap_start h.heap_end (front ++ (chunk f r ∷ (chunk true s ∷ back)))
      → Merged m (front ++ (chunk f r ∷ [])) s back
  merge_before-snoc m front back r s true lay =
      let (w0, w1, w2, w3, end, rest) = words m front (chunk true s ∷ back) r true lay in
      let place : at (front ++ (chunk true r ∷ [])) ≡ at front + M + r + M =
        omega (arith, total-append M front (chunk true r ∷ [])) in
      (
        mark_chunck max_align m (at front) (s + r + M + M) true,
        rw place (
            merge_before_lem m (at front) r s true (omega arith) (omega (arith, end)) w0 w1 w2 w3
              rest.1),
        rw (join_before_last M front (chunk true r) (chunk true s ∷ back))
            (join m front back r s lay (s + r + M + M) (omega arith)),
        λ a out.
            mark_chunck-frame max_align m (at front) (s + r + M + M) true wide
              (omega (arith, end, below)) a
              (omega (arith, place, ap (total M) (kept_part-free front r))),
      )
  merge_before-snoc m front back r s false lay =
      let (w0, w1, w2, w3, end, rest) = words m front (chunk true s ∷ back) r false lay in
      let place : at (front ++ (chunk false r ∷ [])) ≡ at front + M + r + M =
        omega (arith, total-append M front (chunk false r ∷ [])) in
      (
        m,
        rw place (
            merge_before_lem m (at front) r s false (omega arith) (omega (arith, end)) w0 w1 w2 w3
              rest.1),
        rw (join_before_last M front (chunk false r) (chunk true s ∷ back)) lay,
        λ a out. refl,
      )

  pub merge_before-last :
      (m : Memory) (front back : List Chunk) (s : ℕ) (c : Chunk)
      → Layout M m h.heap_start h.heap_end (front ++ (c ∷ (chunk true s ∷ back)))
      → Merged m (front ++ (c ∷ [])) s back
  merge_before-last m front back s (chunk f r) lay = merge_before-snoc m front back r s f lay

  pub merge_before-join :
      (m : Memory) (front back : List Chunk) (s : ℕ)
      → Layout M m h.heap_start h.heap_end (front ++ (chunk true s ∷ back))
      → Merged m front s back
  merge_before-join m front back s lay = elim (last_cases front) [
    | inl e ↦
        subst (λ fs. Merged m fs s back) (sym e)
          (
            m,
            (let e0 : at [] ≡ h.heap_start = omega arith in rw e0 (merge_before_first m)),
            subst (λ fs. Layout M m h.heap_start h.heap_end (fs ++ (chunk true s ∷ back))) e lay,
            λ a out. refl,
          )
    | inr (front', c, e) ↦
        subst (λ fs. Merged m fs s back) (sym e)
          (merge_before-last m front' back s c (
            subst (Layout M m h.heap_start h.heap_end)
              (append_assoc front' (c ∷ []) (chunk true s ∷ back))
              (subst (λ fs. Layout M m h.heap_start h.heap_end (fs ++ (chunk true s ∷ back))) e
                lay)))
  ]
