-- ===== src/Libk/Malloc/Extend.antt =====
-- `malloc` where no free chunk is large enough: the new pages, and a free chunk at the end of the
-- heap, become one region that is cut.
use n00b_os.Prelude.{
  ℕ, ◌+◌, ◌-◌, ◌*◌, ◌^◌, ◌≤◌, ◌<◌, max, ◌≡◌, refl, ap, ◌∙◌, subst, ◌⊎◌, inl, inr, List, ◌++◌, arith,
  none, some, if◌then◌else◌,
}
use n00b_os.Libk.Memory.{Memory}
use n00b_os.Kernel.Pages.{PageSource}
use n00b_os.Kernel.Semaphore.{semaphore_release}
use n00b_os.Libk.Malloc.{
  page_size, aligned_size, Heap, Outcome, returned, panicked, grow, use_end, extend,
}
use n00b_os.Libk.Malloc.Layout.{Chunk, total, Layout, Layout-append, Layout-frame}
use n00b_os.Libk.Malloc.Search.{last_of}
use n00b_os.Libk.Malloc.Place.{cut, placed, use_end-placed, placed-cut}
use n00b_os.Libk.Malloc.Paged.{Mapped, Stuck}
use n00b_os.Libk.Malloc.Grow.{Grown, grow-Grown}
use n00b_os.Libk.Malloc.Inv.{IsHeap}
use n00b_os.Libk.Malloc.Tail.{kept_part, tail_space, kept_part-Layout, merged, region}

module _ (P : PageSource) (max_align : ℕ) where
  abbrev marker : ℕ
  marker = aligned_size max_align 8

  -- what a call that is served by growing the heap does
  pub record Extended (h : Heap P) (cs : List Chunk) (u : ℕ) (out : Outcome P) : Type 0 where
    -- how many pages the heap grows by
    pub k : ℕ
    -- the size of the new region, as a chunk
    pub s : ℕ
    pub after : Heap P
    pub enough : u ≤ s
    pub result : out ≡ returned (h.heap_start + total marker (kept_part cs) + marker) after
    pub heap : IsHeap P max_align after (kept_part cs ++ cut marker u s)
    pub same_start : after.heap_start ≡ h.heap_start
    pub grown : after.heap_end ≡ h.heap_end + k * page_size
    -- each a new page, mapped behind the last, and none more than needed
    pub mapped : Mapped P k h.heap_end h.pages after.pages
    pub reached : u + marker + marker ≤ tail_space marker cs + k * page_size
    pub least :
        tail_space marker cs + k * page_size
        < max (tail_space marker cs) (u + marker + marker) + page_size
    pub unlocked : after.heap_semaphore.lock ≡ 0
    -- the chunks that stay are not written to
    pub same_memory :
        (a : ℕ) → a < h.heap_start + total marker (kept_part cs) → after.memory a ≡ h.memory a

  module _ (fuel tid u : ℕ) (h : Heap P) (cs : List Chunk) (inv : IsHeap P max_align h cs)
      (wide : 8 ≤ marker)
      (rounds : max (tail_space marker cs) (u + marker + marker) + page_size
        ≤ tail_space marker cs + fuel * page_size)
      (space : h.heap_end + (u + marker + marker) + page_size < 2 ^ 32) where
    abbrev locked : Heap P
    locked = record h { heap_semaphore = record { lock = tid } }

    abbrev last : ℕ
    last = last_of marker h.heap_start cs 0

    abbrev q : ℕ
    q = h.heap_start + total marker (kept_part cs)

    abbrev tail : ℕ
    tail = tail_space marker cs

    ends : q + tail ≡ h.heap_end
    ends = (kept_part-Layout marker h.memory h.heap_start h.heap_end cs inv.chunks).1

    found_region :
        ((if merged marker h.memory last then last else h.heap_end) ≡ q)
        × ((if merged marker h.memory last then h.memory (last + 4) + marker + marker else 0)
            ≡ tail)
    found_region =
        region marker h.memory h.heap_start h.heap_end cs inv.chunks (omega (arith, inv.above))

    extend-use_end :
        (h' : Heap P) (n : ℕ)
        → grow P max_align fuel locked tail (u + marker + marker) ≡ some (some (h', n))
        → extend P max_align fuel locked u last ≡ use_end P max_align h' u q n
    unfolding extend
    extend-use_end h' n e = ground (arith, found_region, ends, inv.below)

    extend-panicked :
        grow P max_align fuel locked tail (u + marker + marker) ≡ some none
        → extend P max_align fuel locked u last ≡ panicked
    unfolding extend
    extend-panicked e = ground (arith, found_region, ends, inv.below)

    module _ (k : ℕ) (pages : P.State)
        (run : grow P max_align fuel locked tail (u + marker + marker)
          ≡ some (
              some (
                record locked { heap_end = h.heap_end + k * page_size; pages = pages },
                tail + k * page_size,
              )))
        (enough : u + marker + marker ≤ tail + k * page_size)
        (least : tail + k * page_size < max tail (u + marker + marker) + page_size)
        (mapped : Mapped P k h.heap_end h.pages pages) where
      abbrev s : ℕ
      s = tail + k * page_size - marker - marker

      abbrev grown_heap : Heap P
      grown_heap = record locked { heap_end = h.heap_end + k * page_size; pages = pages }

      fits : u ≤ s
      fits = omega arith

      small : q + marker + s + marker < 2 ^ 32
      small = omega (arith, ends)

      reaches : q + marker + s + marker ≡ h.heap_end + k * page_size
      reaches = omega (arith, ends)

      memory : Memory
      memory = placed max_align P grown_heap u q s wide fits small

      served :
          extend P max_align fuel locked u last
          ≡ returned (q + marker) (record grown_heap {
            memory = memory;
            heap_semaphore = semaphore_release (record { lock = tid });
          })
      unfolding memory
      served =
          extend-use_end grown_heap (tail + k * page_size) run
          ∙ ap (use_end P max_align grown_heap u q) (omega arith)
          ∙ use_end-placed max_align P grown_heap u q s wide fits small (omega (arith, inv.above))

      layout :
          Layout marker memory h.heap_start
            (h.heap_end + k * page_size)
            (kept_part cs ++ cut marker u s)
      unfolding memory
      layout =
          let new = placed-cut max_align P grown_heap u q s wide fits small in
          Layout-append marker memory h.heap_start q (h.heap_end + k * page_size) (kept_part cs)
            (cut marker u s)
            (Layout-frame marker wide h.memory memory h.heap_start q (kept_part cs)
              (λ a lo hi. new.1 a (inl hi))
              (kept_part-Layout marker h.memory h.heap_start h.heap_end cs inv.chunks).0)
            (subst (λ t. Layout marker memory q t (cut marker u s)) reaches new.0)

      extended : Extended h cs u (extend P max_align fuel locked u last)
      unfolding memory
      extended = record {
        k = k;
        s = s;
        after = record grown_heap {
          memory = memory;
          heap_semaphore = semaphore_release (record { lock = tid });
        };
        enough = fits;
        result = served;
        heap = record { chunks = layout; above = inv.above; below = omega (arith, ends) };
        same_start = refl;
        grown = refl;
        mapped = mapped;
        reached = enough;
        least = least;
        unlocked = unfold semaphore_release in refl;
        same_memory =
            λ a lt. (placed-cut max_align P grown_heap u q s wide fits small).1 a (inl lt);
      }

    pub extend_lem :
        ((extend P max_align fuel locked u last ≡ panicked) × Stuck P h tail (u + marker + marker))
        ⊎ Extended h cs u (extend P max_align fuel locked u last)
    extend_lem = from (
        grow-Grown P max_align fuel locked tail (u + marker + marker) rounds (omega (arith, ends))
          (omega (arith, ends)))
      where
        from :
            Grown P max_align locked tail
              (u + marker + marker)
              (grow P max_align fuel locked tail (u + marker + marker))
            → ((extend P max_align fuel locked u last ≡ panicked)
                × Stuck P h tail (u + marker + marker))
              ⊎ Extended h cs u (extend P max_align fuel locked u last)
        from (inl (e, stuck)) = inl (extend-panicked e, stuck)
        from (inr (k, pages, run, enough, least, mapped)) =
            inr (extended k pages run enough least mapped)
