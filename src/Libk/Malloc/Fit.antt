-- ===== src/Libk/Malloc/Fit.antt =====
-- `malloc` where a free chunk is large enough.
use n00b_os.Prelude.{
  ℕ, ◌+◌, ◌^◌, ◌≤◌, ◌<◌, ◌≡◌, refl, ap, subst, ◌≢◌, ◌⊎◌, true, List, [], ◌∷◌, ◌++◌, arith, some,
  length,
}
use n00b_os.Kernel.Pages.{PageSource}
use n00b_os.Kernel.Semaphore.{semaphore_acquire, semaphore_release}
use n00b_os.Libk.Malloc.{aligned_size, search, Heap, Outcome, returned, use_chunck, malloc, Found}
use n00b_os.Libk.Malloc.Layout.{
  Chunk, chunk, total, Layout, Layout-total, total-append, Layout-replace,
}
use n00b_os.Libk.Malloc.Search.{
  NoneBelow, NoneFits, NoneFits-NoneBetter, Searched, kept, taken, search-Searched,
}
use n00b_os.Libk.Malloc.Place.{cut, placed, use_chunck-placed, placed-cut}
use n00b_os.Libk.Malloc.Inv.{IsHeap}

module _ (P : PageSource) (max_align : ℕ) where
  abbrev M : ℕ
  M = aligned_size max_align 8

  -- what a call that is served from the chunks of the heap does
  pub record Served (h : Heap P) (cs : List Chunk) (u : ℕ) (out : Outcome P) : Type 0 where
    pub front : List Chunk
    pub back : List Chunk
    pub s : ℕ
    pub after : Heap P
    -- it takes a free chunk that is large enough, and none that is large enough is smaller
    pub was : cs ≡ front ++ (chunk true s ∷ back)
    pub enough : u ≤ s
    pub best : NoneBelow u s cs
    -- it returns the chunk's bytes, and leaves a heap with the chunk, or its front part, in use
    pub result : out ≡ returned (h.heap_start + total M front + M) after
    pub heap : IsHeap P max_align after (front ++ (cut M u s ++ back))
    pub same_start : after.heap_start ≡ h.heap_start
    pub same_end : after.heap_end ≡ h.heap_end
    pub same_pages : after.pages ≡ h.pages
    pub unlocked : after.heap_semaphore.lock ≡ 0
    -- it writes nowhere outside the chunk
    pub same_memory :
        (a : ℕ)
        → (a < h.heap_start + total M front) ⊎ (h.heap_start + total M front + M + s + M ≤ a)
        → after.memory a ≡ h.memory a

  -- the search's chunk, cut
  serve :
      (h : Heap P) (cs front back : List Chunk) (u s tid : ℕ)
      → IsHeap P max_align h cs
      → 8 ≤ M
      → cs ≡ front ++ (chunk true s ∷ back)
      → u ≤ s
      → NoneBelow u s cs
      → Served h cs u (
          use_chunck P max_align
            (record h { heap_semaphore = record { lock = tid } })
            u
            (h.heap_start + total M front)
            s)
  serve h cs front back u s tid inv wide was enough best = record {
    front = front;
    back = back;
    s = s;
    after = record h {
      memory = placed max_align P locked u q s wide enough small;
      heap_semaphore = semaphore_release (record { lock = tid });
    };
    was = was;
    enough = enough;
    best = best;
    result = use_chunck-placed max_align P locked u q s wide enough small;
    heap = record {
      chunks =
          Layout-replace M wide h.memory (placed max_align P locked u q s wide enough small)
            h.heap_start q (q + M + s + M) h.heap_end front (chunk true s ∷ []) back (cut M u s)
            (subst (Layout M h.memory h.heap_start h.heap_end) was inv.chunks) refl (omega arith)
            (placed-cut max_align P locked u q s wide enough small).1
            (placed-cut max_align P locked u q s wide enough small).0;
      above = inv.above;
      below = inv.below;
    };
    same_start = refl;
    same_end = refl;
    same_pages = refl;
    unlocked = unfold semaphore_release in refl;
    same_memory = (placed-cut max_align P locked u q s wide enough small).1;
  }
    where
      q : ℕ
      q = h.heap_start + total M front

      locked : Heap P
      locked = record h { heap_semaphore = record { lock = tid } }

      small : q + M + s + M < 2 ^ 32
      small = omega (
        arith,
        inv.below,
        Layout-total M h.memory h.heap_start h.heap_end cs inv.chunks,
        ap (total M) was,
        total-append M front (chunk true s ∷ back),
      )

  abbrev nothing : Found
  nothing = record { best_ptr = 0; best_size = 0; last = 0 }

  module _ (fuel tid size : ℕ) {h : Heap P} {cs : List Chunk} (inv : IsHeap P max_align h cs)
      (free : h.heap_semaphore.lock ≡ 0) (wide : 8 ≤ M) (ne : size ≢ 0)
      (fits : ¬ NoneFits (aligned_size max_align size) cs) where
    abbrev u : ℕ
    u = aligned_size max_align size

    malloc-use_chunck :
        {after : Found}
        → search max_align fuel h.memory u h.heap_end h.heap_start nothing ≡ some after
        → after.best_ptr ≢ 0
        → malloc P max_align fuel tid h size
          ≡ use_chunck P max_align
              (record h { heap_semaphore = record { lock = tid } })
              u
              after.best_ptr
              after.best_size
    unfolding malloc semaphore_acquire
    malloc-use_chunck run found = ground arith

    serve_found :
        {after : Found}
        → search max_align fuel h.memory u h.heap_end h.heap_start nothing ≡ some after
        → Searched M u h.heap_start cs nothing after
        → Served h cs u (malloc P max_align fuel tid h size)
    serve_found run (kept kp ks kl none_better) =
        absurd (fits (NoneFits-NoneBetter u 0 cs none_better))
    serve_found {after} run (taken front back was at enough best less) =
        rw (malloc-use_chunck run (omega (arith, inv.above)), at)
          (serve h cs front back u after.best_size tid inv wide was enough best)

    -- If a free chunk is large enough, `malloc` takes one of the smallest such chunks, cuts off
    -- what it does not need, returns it, and writes nowhere else.
    pub malloc_fits : length cs < fuel → Served h cs u (malloc P max_align fuel tid h size)
    malloc_fits lt =
        let (after, run, searched) =
          search-Searched max_align u fuel h.memory h.heap_start h.heap_end cs nothing inv.chunks
            (omega (arith, inv.above)) (omega arith) inv.below lt in
        serve_found run searched
