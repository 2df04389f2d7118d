-- ===== src/Libk/Malloc/NoFit.antt =====
-- `malloc` where no free chunk is large enough, from the search on.
use n00b_os.Prelude.{
  ℕ, ◌+◌, ◌*◌, ◌^◌, ◌≤◌, ◌<◌, max, ◌≡◌, ◌≢◌, ◌⊎◌, ◌∙◌, refl, ap, subst, List, [], ◌∷◌, ◌++◌, arith,
  some, length, true,
}
use n00b_os.Kernel.Pages.{PageSource}
use n00b_os.Kernel.Semaphore.{semaphore_acquire}
use n00b_os.Libk.Malloc.{page_size, aligned_size, search, Found, Heap, panicked, extend, malloc}
use n00b_os.Libk.Malloc.Layout.{Chunk, chunk}
use n00b_os.Libk.Malloc.Search.{NoneFits, last_of, Searched, kept, taken, search-Searched}
use n00b_os.Libk.Malloc.Paged.{Stuck}
use n00b_os.Libk.Malloc.Tail.{tail_space}
use n00b_os.Libk.Malloc.Extend.{Extended, extend_lem}
use n00b_os.Libk.Malloc.Inv.{IsHeap}

not-NoneFits :
    (u s : ℕ) (front back : List Chunk) → u ≤ s → NoneFits u (front ++ (chunk true s ∷ back)) → ⊥
not-NoneFits u s [] back le h = omega (arith, h.0 refl)
not-NoneFits u s (chunk f t ∷ front) back le h = not-NoneFits u s front back le h.1

module _ (P : PageSource) (max_align : ℕ) where
  abbrev marker : ℕ
  marker = aligned_size max_align 8

  abbrev nothing : Found
  nothing = record { best_ptr = 0; best_size = 0; last = 0 }

  module _ (fuel tid size : ℕ) {h : Heap P} {cs : List Chunk} (inv : IsHeap P max_align h cs)
      (unlocked : h.heap_semaphore.lock ≡ 0) (wide : 8 ≤ marker) (ne : size ≢ 0)
      (none_fits : NoneFits (aligned_size max_align size) cs) where
    abbrev u : ℕ
    u = aligned_size max_align size

    malloc-extend :
        {after : Found}
        → search max_align fuel h.memory u h.heap_end h.heap_start nothing ≡ some after
        → after.best_ptr ≡ 0
        → malloc P max_align fuel tid h size
          ≡ extend P max_align fuel
              (record h { heap_semaphore = record { lock = tid } })
              u
              after.last
    unfolding malloc semaphore_acquire
    malloc-extend run found = ground arith

    reduce :
        {after : Found}
        → search max_align fuel h.memory u h.heap_end h.heap_start nothing ≡ some after
        → Searched marker u h.heap_start cs nothing after
        → malloc P max_align fuel tid h size
          ≡ extend P max_align fuel
              (record h { heap_semaphore = record { lock = tid } })
              u
              (last_of marker h.heap_start cs 0)
    reduce run (kept kp ks kl none_better) =
        malloc-extend run kp
        ∙ ap (extend P max_align fuel (record h { heap_semaphore = record { lock = tid } }) u) kl
    reduce {after} run (taken front back was at enough best less) =
        absurd (not-NoneFits u after.best_size front back enough (subst (NoneFits u) was none_fits))

    -- If no free chunk is large enough, the size is not 0, the heap is well formed, the semaphore free and the
    -- addresses of the new pages do not wrap, `malloc` panics where a page that it needs is not left or cannot
    -- be mapped, or adds to the heap the least number of pages, each of them new, zeroed and mapped behind
    -- the last, joins them with a free chunk at the end of the heap, cuts off what it does not need, returns
    -- the rest, and writes to no other chunk. With fuel for the chunks and for the pages it always ends.
    pub malloc_extends :
        length cs < fuel
        → max (tail_space marker cs) (u + marker + marker) + page_size
          ≤ tail_space marker cs + fuel * page_size
        → h.heap_end + (u + marker + marker) + page_size < 2 ^ 32
        → ((malloc P max_align fuel tid h size ≡ panicked)
            × Stuck P h (tail_space marker cs) (u + marker + marker))
          ⊎ Extended P max_align h cs u (malloc P max_align fuel tid h size)
    malloc_extends lt rounds space =
        let (after, run, searched) =
          search-Searched max_align u fuel h.memory h.heap_start h.heap_end cs nothing inv.chunks
            (omega (arith, inv.above)) (omega arith) inv.below lt in
        rw (reduce run searched) (extend_lem P max_align fuel tid u h cs inv wide rounds space)
