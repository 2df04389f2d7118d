-- ===== src/Libk/Malloc/Tests.antt =====
-- A heap of three chunks, and calls of `malloc` and `free` on it.
use n00b_os.Prelude.{
  ℕ, ◌+◌, ◌*◌, ◌^◌, ◌≤◌, max, ◌≡◌, refl, ◌⊎◌, true, false, List, [], ◌∷◌, arith, pos, ◌%◌, ◌<◌,
}
use n00b_os.Libk.Memory.{Memory}
use n00b_os.Kernel.Pages.{PageSource}
use n00b_os.Kernel.Semaphore.{semaphore_acquire}
use n00b_os.Libk.Malloc.{
  aligned_size, mark_chunck, Heap, returned, panicked, malloc, free, search, use_chunck,
}
use n00b_os.Libk.Malloc.Layout.{Chunk, chunk}
use n00b_os.Libk.Malloc.Align.{aligned_size_lem, aligned_size_wraps}
use n00b_os.Libk.Malloc.Inv.{IsHeap}
use n00b_os.Libk.Malloc.Fit.{Served, malloc_fits}
use n00b_os.Libk.Malloc.Free.{Freed, free_joins}
use n00b_os.Libk.Malloc.Realloc.{realloc}
use n00b_os.Libk.Malloc.Realloc.Moved.{Moved}
use n00b_os.Libk.Malloc.Realloc.Fits.{realloc_fits}
use n00b_os.Libk.Malloc.Realloc.Grows.{realloc_grows}
use n00b_os.Libk.Malloc.Tail.{tail_space}
use n00b_os.Libk.Malloc.Paged.{Mapped, Stuck}
use n00b_os.Libk.Malloc.Extend.{Extended}
use n00b_os.Libk.Malloc.Search.{NoneFits}
use n00b_os.Libk.Malloc.NoFit.{malloc_extends}

-- pages without end: the state is the next one
abbrev plenty : PageSource
plenty = record {
  State = ℕ;
  alloc_physical_page = λ zeroed next. (next, next + 4096);
  free_physical_page = λ page next. next;
  map_page = λ physical virtual next. (pos 0, next);
}

abbrev memory : Memory
memory =
    mark_chunck 8 (mark_chunck 8 (mark_chunck 8 (λ _. 0) 4096 64 true) 4176 32 false) 4224 3952 true

abbrev heap : Heap plenty
heap = record {
  memory = memory;
  heap_semaphore = record { lock = 0 };
  heap_start = 4096;
  heap_end = 8192;
  pages = 4096;
}

abbrev chunks : List Chunk
chunks = chunk true 64 ∷ chunk false 32 ∷ chunk true 3952 ∷ []

heap-IsHeap : IsHeap plenty 8 heap chunks
unfolding mark_chunck aligned_size
heap-IsHeap = record {
  chunks = (refl, refl, refl, refl, (refl, refl, refl, refl, (refl, refl, refl, refl, refl)));
  above = omega arith;
  below = omega arith;
}

split_run : (out : Heap plenty) × (malloc plenty 8 9 7 heap 5 ≡ returned 4104 out)
unfolding malloc search use_chunck mark_chunck aligned_size semaphore_acquire
split_run = (_, refl)

aligned_size_lem_test :
    (aligned_size 16 20 % 16 ≡ 0) × (20 ≤ aligned_size 16 20) × (aligned_size 16 20 < 36)
aligned_size_lem_test = aligned_size_lem 16 20 (omega arith) (omega arith)

aligned_size_wraps_test : aligned_size 16 0xffff_fff5 ≡ 0
aligned_size_wraps_test =
    aligned_size_wraps 16 0xffff_fff5 (omega arith) refl (omega arith) (omega arith)

wide : 8 ≤ aligned_size 8 8
unfolding aligned_size
wide = omega arith

some_fits : ¬ NoneFits (aligned_size 8 20) chunks
unfolding aligned_size
some_fits h = omega (arith, h.0 refl)

none_fits : NoneFits (aligned_size 8 5000) chunks
unfolding aligned_size
none_fits = omega arith

rounds :
    max
        (tail_space (aligned_size 8 8) chunks)
        (aligned_size 8 5000 + aligned_size 8 8 + aligned_size 8 8)
      + 4096
    ≤ tail_space (aligned_size 8 8) chunks + 9 * 4096
unfolding aligned_size
rounds = omega arith

space : 8192 + (aligned_size 8 5000 + aligned_size 8 8 + aligned_size 8 8) + 4096 < 2 ^ 32
unfolding aligned_size
space = omega arith

malloc_fits_example : Served plenty 8 heap chunks (aligned_size 8 20) (malloc plenty 8 9 7 heap 20)
malloc_fits_example =
    malloc_fits plenty 8 9 7 20 heap-IsHeap refl wide (omega arith) some_fits (omega arith)

malloc_extends_example :
    ((malloc plenty 8 9 7 heap 5000 ≡ panicked)
      × Stuck plenty heap
          (tail_space (aligned_size 8 8) chunks)
          (aligned_size 8 5000 + aligned_size 8 8 + aligned_size 8 8))
    ⊎ Extended plenty 8 heap chunks (aligned_size 8 5000) (malloc plenty 8 9 7 heap 5000)
malloc_extends_example =
    malloc_extends plenty 8 9 7 5000 heap-IsHeap refl wide (omega arith) none_fits (omega arith)
      rounds space

-- the chunk in use, with a free one on either side
free_joins_example : Freed plenty 8 heap (chunk true 64 ∷ []) 32 (chunk true 3952 ∷ []) (
    free plenty 8 7 heap (4096 + (aligned_size 8 8 + 64 + aligned_size 8 8 + 0) + aligned_size 8 8))
free_joins_example =
    free_joins plenty 8 7 (chunk true 64 ∷ []) (chunk true 3952 ∷ []) 32 heap-IsHeap refl wide

marker_words : aligned_size 8 8 % 4 ≡ 0
unfolding aligned_size
marker_words = refl

not_wrapped : 20 ≤ aligned_size 8 20
unfolding aligned_size
not_wrapped = omega arith

large : 5000 ≤ aligned_size 8 5000
unfolding aligned_size
large = omega arith

abbrev in_use : ℕ
in_use = 4096 + (aligned_size 8 8 + 64 + aligned_size 8 8 + 0) + aligned_size 8 8

-- the chunk in use, whose new block is cut off the chunk behind it
realloc_fits_example :
    Moved plenty 8 heap 8192 4096 in_use 32 20 (realloc plenty 8 9 7 heap in_use 20)
realloc_fits_example =
    realloc_fits plenty 8 9 7 20 heap (chunk true 64 ∷ []) (chunk true 3952 ∷ []) 32 heap-IsHeap
      (refl, (refl, (refl, tt))) marker_words refl refl wide (omega arith) not_wrapped some_fits
      (omega arith)

realloc_grows_example :
    ((realloc plenty 8 9 7 heap in_use 5000 ≡ panicked)
      × Stuck plenty heap
          (tail_space (aligned_size 8 8) chunks)
          (aligned_size 8 5000 + aligned_size 8 8 + aligned_size 8 8))
    ⊎ ((k : ℕ) × (pages : ℕ) × (aligned_size 8 5000 + aligned_size 8 8 + aligned_size 8 8
          ≤ tail_space (aligned_size 8 8) chunks + k * 4096)
        × (tail_space (aligned_size 8 8) chunks + k * 4096
            < max
                (tail_space (aligned_size 8 8) chunks)
                (aligned_size 8 5000 + aligned_size 8 8 + aligned_size 8 8)
              + 4096)
        × Mapped plenty k 8192 4096 pages
        × Moved plenty 8 heap
            (8192 + k * 4096)
            pages
            in_use
            32
            5000
            (realloc plenty 8 9 7 heap in_use 5000))
realloc_grows_example =
    realloc_grows plenty 8 9 7 5000 heap (chunk true 64 ∷ []) (chunk true 3952 ∷ []) 32 heap-IsHeap
      (refl, (refl, (refl, tt))) marker_words refl refl wide (omega arith) large none_fits
      (omega arith) rounds space
