-- ===== src/Kernel/Stack/Sample.antt =====
-- Test data: stacks below 0xFFC00000, whose page table is there, with four free pages.
use n00b_os.Prelude.{ℕ, ◌+◌, ◌≡◌, refl, none, some, [], ◌∷◌, ltb, leb, ◌==◌, ◌&&◌, if◌then◌else◌}
use n00b_os.Kernel.PageAllocator.{Pages, mm_alloc_physical_page, mm_map_page}
use n00b_os.Kernel.Stack.{Stacks, mm_alloc_stack}

abbrev pub four_pages : Pages
four_pages = record {
  physical = λ a i.
      if a == 0x4000
      then (if i == 1022 then 0x5003 else if i == 1023 then 0x4003 else 0)
      else if leb 0x10000 a && ltb a 0x13000 && (i == 0)
      then a + 0x1000
      else 0;
  first_free_page = 0x10000;
  stat_mark = 4;
  page_dir = 0x4000;
}

abbrev pub one_stack : Stacks
one_stack = record { stacks_start = 0xFFC00000; stacks_bitmaps = 1 ∷ []; words = λ a. 0 }

-- what `mm_alloc_stack` returns for the process control block at 77
abbrev pub made : ℕ × Stacks × Pages
made = elim (mm_alloc_stack one_stack four_pages 77) [
  | some r ↦ r
  | none ↦ (0, one_stack, four_pages)
]

pub made_lem : mm_alloc_stack one_stack four_pages 77 ≡ some made
unfolding mm_alloc_stack mm_alloc_physical_page mm_map_page
made_lem = refl

pub made-sp : made.0 ≡ 0xFFBFBFF0
unfolding mm_alloc_stack mm_alloc_physical_page mm_map_page
made-sp = refl
