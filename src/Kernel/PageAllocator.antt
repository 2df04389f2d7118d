-- ===== src/Kernel/PageAllocator.antt =====
-- kernel/src/arch/i386/mm/page_allocator.c: the list of free physical pages, and the page tables of
-- the running address space. A mutex is held in each operation, so that none is interleaved.
pub mod Free
pub mod Tables
mod Tests
use n00b_os.Prelude.{
  ℕ, zero, suc, ◌+◌, ◌-◌, ◌*◌, ◌/◌, ◌%◌, ◌^◌, Bool, true, false, not, ◌&&◌, ◌||◌, List, [], ◌∷◌,
  ltb, ◌==◌, if◌then◌else◌, ℤ, pos, minus_one, min, max,
}

-- the words of physical memory, by page and index in the page
abbrev pub Physical : Type 0
Physical = ℕ → ℕ → ℕ

abbrev pub set_word : Physical → ℕ → ℕ → ℕ → Physical
set_word p page index v a i = if (a == page) && (i == index) then v else p a i

-- `memset(page, 0, 4096)`
abbrev pub zero_page : Physical → ℕ → Physical
zero_page p page a i = if (a == page) && ltb i 1024 then 0 else p a i

-- `page_dir` is the physical page of the directory that is loaded. Its last entry names itself, so that the
-- code sees the directory at `kernel_page_dir` and the page tables at 0xFFC00000 and up: the directory is also
-- the page table 1023. All of them lie in `physical`.
pub record Pages : Type 0 where
  pub physical : Physical
  pub first_free_page : ℕ
  pub stat_mark : ℕ
  pub page_dir : ℕ

-- `mm_virtaddrtopageindex`: the page table and the page in it
abbrev pub virtaddr_to_pageindex : ℕ → ℕ × ℕ
virtaddr_to_pageindex addr =
    let aligned = addr / 0x1000 * 0x1000 in (aligned / 0x400000, aligned % 0x400000 / 0x1000)

-- the page that a directory or table entry names
abbrev pub entry_page : ℕ → ℕ
entry_page e = e / 0x1000 * 0x1000

-- `e & 1`
abbrev pub is_present : ℕ → Bool
is_present e = e % 2 == 1

-- `page | 3`, for an aligned page
abbrev pub present_entry : ℕ → ℕ
present_entry page = page / 4 * 4 + 3

-- `mm_freepage` is mapped to a page, its first word is written, and the marks are counted
pub mark_page : Pages → ℕ → ℕ → Pages
mark_page s page next = record s {
  physical = set_word s.physical page 0 next;
  stat_mark = (s.stat_mark + 1) % 2 ^ 32;
}

-- an entry of the memory map that the loader gives
pub record Region : Type 0 where
  pub type : ℕ
  pub addr : ℕ
  pub len : ℕ

-- the inner loop of `mm_init_page_allocator`, with `previous`
mark_from : ℕ → Pages → ℕ → ℕ → Pages × ℕ
unfolding mark_page
mark_from zero s previous next = (s, previous)
mark_from (suc k) s previous next =
    let page = next % 2 ^ 32 in
    let s' =
      if s.first_free_page == 0
      then record s { first_free_page = page }
      else mark_page s previous page in
    mark_from k s' page (next + 4096)

-- the number of its rounds
abbrev rounds : ℕ → ℕ → ℕ
rounds from to = (to - from + 4095) / 4096

mark_regions : Pages → ℕ → ℕ → List Region → Pages × ℕ
unfolding mark_from
mark_regions s page_after_kernel previous [] = (s, previous)
mark_regions s page_after_kernel previous (mm ∷ mmap) =
    let from = max page_after_kernel mm.addr in
    let to = min ((mm.addr + mm.len) % 2 ^ 64) 0xFFFFFFFF in
    let marked =
      if mm.type == 1 then mark_from (rounds from to) s previous from else (s, previous) in
    mark_regions marked.0 page_after_kernel marked.1 mmap

pub mm_init_page_allocator : Pages → ℕ → List Region → Pages
unfolding mark_regions mark_page
mm_init_page_allocator s kernel_physical_end mmap =
    let page_after_kernel = (kernel_physical_end / 2 ^ 12 + 1) * 4096 in
    let marked = mark_regions s page_after_kernel 0 mmap in mark_page marked.0 marked.1 0

-- `zero` says whether the page is to be zeroed
unfoldable pub mm_alloc_physical_page : Pages → Bool → ℕ × Pages
mm_alloc_physical_page s zeroed =
    let page = s.first_free_page in
    if page == 0 then (0, s) else (
      page,
      record s {
        first_free_page = s.physical page 0;
        physical = if zeroed then zero_page s.physical page else s.physical;
      },
    )

pub mm_free_physical_page : Pages → ℕ → Pages
mm_free_physical_page s page = record s {
  physical = set_word s.physical page 0 s.first_free_page;
  first_free_page = page;
}

-- `kernel_page_dir[pagetable]`
abbrev pub dir_entry : Pages → ℕ → ℕ
dir_entry s pagetable = s.physical s.page_dir pagetable

-- the entry for a page of the table that a directory entry maps
abbrev pub table_entry : Pages → ℕ → ℕ → ℕ
table_entry s pagetable page = s.physical (entry_page (dir_entry s pagetable)) page

abbrev pub set_table_entry : Pages → ℕ → ℕ → ℕ → Pages
set_table_entry s pagetable page v = record s {
  physical = set_word s.physical (entry_page (dir_entry s pagetable)) page v;
}

abbrev pub set_dir_entry : Pages → ℕ → ℕ → Pages
set_dir_entry s pagetable v = record s { physical = set_word s.physical s.page_dir pagetable v }

-- `!page_table[page] & 1` is `(!page_table[page]) & 1`: true for the entry 0 alone.
unfoldable pub mm_map_page : Pages → ℕ → ℕ → ℤ × Pages
unfolding mm_alloc_physical_page
mm_map_page s phys_address virt_address =
    let at = virtaddr_to_pageindex virt_address in
    let new = mm_alloc_physical_page s true in
    let grown = set_dir_entry new.1 at.0 (present_entry new.0) in
    if phys_address == 0 || virt_address == 0
    then (minus_one, s)
    else if is_present (dir_entry s at.0)
    then (if table_entry s at.0 at.1 == 0
        then (pos 0, set_table_entry s at.0 at.1 (present_entry phys_address))
        else (minus_one, s))
    else (pos 0, set_table_entry grown at.0 at.1 (present_entry phys_address))

-- whether one of the first `k` entries of a page table is present
pub any_present : ℕ → Pages → ℕ → Bool
any_present zero s pagetable = false
any_present (suc k) s pagetable =
    is_present (table_entry s pagetable k) || any_present k s pagetable

-- `mm_unmap_page` for page tables of `entries` entries. The result is that of
-- `page_table[page] && ~0xFFF`: 1 for an entry that is present.
pub unmap_page_of : ℕ → Pages → ℕ → ℕ × Pages
unfolding any_present mm_free_physical_page
unmap_page_of entries s virt_address =
    let at = virtaddr_to_pageindex virt_address in
    let mapped = is_present (table_entry s at.0 at.1) in
    let s1 = if mapped then set_table_entry s at.0 at.1 2 else s in
    let s2 = set_dir_entry (mm_free_physical_page s1 (entry_page (dir_entry s1 at.0))) at.0 2 in
    if is_present (dir_entry s at.0)
    then (if mapped then 1 else 0, if any_present entries s1 at.0 then s1 else s2)
    else (0, s)

pub mm_unmap_page : Pages → ℕ → ℕ × Pages
unfolding unmap_page_of
mm_unmap_page s virt_address = unmap_page_of 1024 s virt_address

-- `physical` of the new directory: the 255 entries of kernel space, and the one that maps itself
pub mm_new_page_directory : Pages → ℕ × Pages
unfolding mm_alloc_physical_page
mm_new_page_directory s =
    let new = mm_alloc_physical_page s true in
    let s' = new.1 in
    let dir = λ (a i : ℕ).
      if a == new.0
      then (if i == 1023
          then present_entry new.0
          else if not (ltb i 768) && ltb i 1023
          then dir_entry s' i
          else s'.physical a i)
      else s'.physical a i in
    (new.0, record s' { physical = dir })
