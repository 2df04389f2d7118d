-- ===== src/Libk/Malloc/Inv.antt =====
-- The invariant of the heap: its chunks fill it from end to end.
use n00b_os.Prelude.{ℕ, ◌+◌, ◌^◌, ◌<◌, ◌≤◌, List}
use n00b_os.Kernel.Pages.{PageSource}
use n00b_os.Libk.Malloc.{aligned_size, Heap}
use n00b_os.Libk.Malloc.Layout.{Chunk, Layout}

module _ (P : PageSource) (max_align : ℕ) where
  pub record IsHeap (h : Heap P) (cs : List Chunk) : Type 0 where
    pub chunks : Layout (aligned_size max_align 8) h.memory h.heap_start h.heap_end cs
    pub above : aligned_size max_align 8 + aligned_size max_align 8 ≤ h.heap_start
    pub below : h.heap_end < 2 ^ 32
