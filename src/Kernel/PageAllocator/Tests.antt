-- ===== src/Kernel/PageAllocator/Tests.antt =====
-- Two free pages, a directory at 0x4000 that maps itself, and a page table at 0x5000 that maps two pages.
use n00b_os.Prelude.{
  inl, ℕ, ◌≡◌, ◌≢◌, ◌⊎◌, refl, true, [], ◌∷◌, some, none, pos, arith, ◌==◌, ◌&&◌, if◌then◌else◌,
}
use n00b_os.Kernel.PageAllocator.{
  Pages, mm_alloc_physical_page, mm_free_physical_page, mm_map_page, mm_unmap_page,
  virtaddr_to_pageindex,
}
use n00b_os.Kernel.PageAllocator.Free.{Free, mm_free_physical_page-Free}
use n00b_os.Kernel.PageAllocator.Tables.{
  translate, OwnTables, SelfMapped, Unmapped, mm_map_page_lem, mm_map_page-new_table,
  mm_unmap_page-Unmapped,
}

abbrev pages : Pages
pages = record {
  physical = λ a i.
      if a == 0x4000
      then (if i == 1 then 0x5003 else if i == 1023 then 0x4003 else 0)
      else if a == 0x5000
      then (if i == 3 then 0x8003 else if i == 4 then 0x9003 else 0)
      else if (a == 0x6000) && (i == 0)
      then 0x7000
      else 0;
  first_free_page = 0x6000;
  stat_mark = 2;
  page_dir = 0x4000;
}

pages-Free : Free pages (0x6000 ∷ 0x7000 ∷ [])
pages-Free = (refl, omega arith, refl, (refl, omega arith, refl, refl))

mm_free_physical_page-Free_example :
    Free (mm_free_physical_page pages 0xA000) (0xA000 ∷ 0x6000 ∷ 0x7000 ∷ [])
    × ((mm_alloc_physical_page (mm_free_physical_page pages 0xA000) true).0 ≡ 0xA000)
mm_free_physical_page-Free_example =
    mm_free_physical_page-Free pages (0x6000 ∷ 0x7000 ∷ []) 0xA000 true pages-Free (omega arith)
      refl

own : OwnTables pages
own t u here there e = ground arith

self : SelfMapped pages
self = (refl, refl)

mm_map_page_lem_example :
    let (r, s') = mm_map_page pages 0xA000 0x405000 in
    (r ≡ pos 0)
    × (translate s' 0x405000 ≡ some 0xA000)
    × ((v : ℕ)
        → ((virtaddr_to_pageindex v).0 ≢ (virtaddr_to_pageindex 0x405000).0)
          ⊎ ((virtaddr_to_pageindex v).1 ≢ (virtaddr_to_pageindex 0x405000).1)
        → translate s' v ≡ translate pages v)
mm_map_page_lem_example =
    mm_map_page_lem pages 0xA000 0x405000 own self (omega arith) (omega arith) refl (omega arith)
      refl refl

mm_map_page-new_table_test :
    let (r, s') = mm_map_page pages 0xA000 0x805000 in
    (r ≡ pos 0)
    × (translate s' 0x805000 ≡ some 0xA000)
    × ((v : ℕ)
        → (virtaddr_to_pageindex v).0 ≡ (virtaddr_to_pageindex 0x805000).0
        → (virtaddr_to_pageindex v).1 ≢ (virtaddr_to_pageindex 0x805000).1
        → translate s' v ≡ none)
mm_map_page-new_table_test =
    mm_map_page-new_table pages 0xA000 0x805000 0x6000 (0x7000 ∷ []) (omega arith) refl
      (omega arith) refl pages-Free (omega arith) refl

mm_unmap_page-Unmapped_example : Unmapped (mm_unmap_page pages 0x403000) 0x403000
mm_unmap_page-Unmapped_example =
    mm_unmap_page-Unmapped pages 0x403000 0x8000 4 (inl (omega arith)) refl (omega arith)
      (omega arith) refl
