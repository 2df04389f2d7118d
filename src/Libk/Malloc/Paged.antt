-- ===== src/Libk/Malloc/Paged.antt =====
-- The pages by which the heap grows: allocated and zeroed one after the other, each mapped behind the last.
use n00b_os.Prelude.{ℕ, zero, suc, ◌+◌, ◌*◌, ◌<◌, ◌≡◌, ◌≢◌, ◌⊎◌, true, pos}
use n00b_os.Kernel.Pages.{PageSource}
use n00b_os.Libk.Malloc.{page_size, Heap}

module _ (P : PageSource) where
  -- `k` pages are allocated and mapped from the address `at` on, which takes the source of pages to the second
  -- state.
  abbrev pub Mapped : ℕ → ℕ → P.State → P.State → Type 0
  Mapped zero at pages after = after ≡ pages
  Mapped (suc k) at pages after =
      let page = P.alloc_physical_page true pages in
      let mapped = P.map_page page.0 at page.1 in
      (page.0 ≢ 0) × (mapped.0 ≡ pos 0) × Mapped k (at + page_size) mapped.1 after

  -- No page is left, or it cannot be mapped at `at`.
  abbrev pub Refused : ℕ → P.State → Type 0
  Refused at pages =
      let page = P.alloc_physical_page true pages in
      (page.0 ≡ 0) ⊎ ((P.map_page page.0 at page.1).0 ≢ pos 0)

  -- The heap cannot grow from `free` to `wanted` bytes at its end: a page that it needs is refused.
  abbrev pub Stuck : Heap P → ℕ → ℕ → Type 0
  Stuck h free wanted =
      (k : ℕ) × (pages : P.State) × (free + k * page_size < wanted)
      × Mapped k h.heap_end h.pages pages
      × Refused (h.heap_end + k * page_size) pages
