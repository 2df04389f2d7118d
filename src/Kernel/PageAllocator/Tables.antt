-- ===== src/Kernel/PageAllocator/Tables.antt =====
-- What the page tables map.
use n00b_os.Prelude.{
  ap, ap₂, inl, inr, Bool-cases, sym, ◌∙◌, ℕ, zero, suc, ◌%◌, ◌≡◌, ◌<◌, ◌≢◌, ◌⊎◌, true, false, ◌&&◌,
  List, ◌∷◌, arith, if◌then◌else◌, subst, Option, some, none, pos, minus_one,
}
use n00b_os.Kernel.PageAllocator.{
  Pages, mm_alloc_physical_page, mm_map_page, unmap_page_of, mm_unmap_page, virtaddr_to_pageindex,
  table_entry, dir_entry, present_entry, is_present, entry_page, any_present, set_table_entry,
}
use n00b_os.Kernel.PageAllocator.Free.{Free}

-- the page that a directory entry and a table entry show
abbrev shown : ℕ → ℕ → Option ℕ
shown d e = if is_present d && is_present e then some (entry_page e) else none

-- the physical page of a virtual address
abbrev pub translate : Pages → ℕ → Option ℕ
translate s virt =
    let (pagetable, page) = virtaddr_to_pageindex virt in
    shown (dir_entry s pagetable) (table_entry s pagetable page)

-- no two page tables lie in one page
abbrev pub OwnTables : Pages → Type 0
OwnTables s =
    (t u : ℕ)
    → is_present (dir_entry s t) ≡ true
    → is_present (dir_entry s u) ≡ true
    → entry_page (dir_entry s t) ≡ entry_page (dir_entry s u)
    → t ≡ u

-- The directory is its own last page table.
abbrev pub SelfMapped : Pages → Type 0
SelfMapped s = (is_present (dir_entry s 1023) ≡ true) × (entry_page (dir_entry s 1023) ≡ s.page_dir)

-- Another page table is not the directory.
own-apart :
    (s : Pages) (t : ℕ)
    → OwnTables s
    → SelfMapped s
    → t ≢ 1023
    → is_present (dir_entry s t) ≡ true
    → entry_page (dir_entry s t) ≢ s.page_dir
own-apart s t own self below here e = below (own t 1023 here self.0 (e ∙ sym self.1))

module _ (s : Pages) (t p e : ℕ) where
  dir_entry-kept :
      (i : ℕ)
      → entry_page (dir_entry s t) ≢ s.page_dir
      → dir_entry (set_table_entry s t p e) i ≡ dir_entry s i
  dir_entry-kept i apart = ground (arith, apart)

  table_entry-set :
      entry_page (dir_entry s t) ≢ s.page_dir → table_entry (set_table_entry s t p e) t p ≡ e
  table_entry-set apart =
      ap (λ d. (set_table_entry s t p e).physical (entry_page d) p) (dir_entry-kept t apart)
      ∙ ground arith

  table_entry-kept :
      (t' p' : ℕ)
      → entry_page (dir_entry s t) ≢ s.page_dir
      → (entry_page (dir_entry s t') ≢ entry_page (dir_entry s t)) ⊎ (p' ≢ p)
      → table_entry (set_table_entry s t p e) t' p' ≡ table_entry s t' p'
  table_entry-kept t' p' apart other =
      ap (λ d. (set_table_entry s t p e).physical (entry_page d) p') (dir_entry-kept t' apart)
      ∙ ground (arith, other)

  -- an entry of another table, or another entry
  shown-kept :
      (t' p' : ℕ)
      → entry_page (dir_entry s t) ≢ s.page_dir
      → OwnTables s
      → is_present (dir_entry s t) ≡ true
      → (t' ≢ t) ⊎ (p' ≢ p)
      → shown (dir_entry (set_table_entry s t p e) t') (table_entry (set_table_entry s t p e) t' p')
        ≡ shown (dir_entry s t') (table_entry s t' p')
  shown-kept t' p' apart own here ne = elim (Bool-cases (is_present (dir_entry s t'))) [
    | inl there ↦
        ap₂ shown (dir_entry-kept t' apart) (table_entry-kept t' p' apart (differ ne there))
    | inr absent ↦
        ap (λ d. shown d (table_entry (set_table_entry s t p e) t' p')) (dir_entry-kept t' apart)
        ∙ ground (arith, absent)
  ]
    where
      differ :
          (t' ≢ t) ⊎ (p' ≢ p)
          → is_present (dir_entry s t') ≡ true
          → (entry_page (dir_entry s t') ≢ entry_page (dir_entry s t)) ⊎ (p' ≢ p)
      differ (inl n) there = inl (λ same. n (own t' t there here same))
      differ (inr n) there = inr n

-- In a page table that is there and is not the directory, `mm_map_page` maps an address whose entry is 0 to the page, and
-- every other address as before, if no two page tables lie in one page and the directory maps itself.
pub mm_map_page_lem :
    (s : Pages) (phys virt : ℕ)
    → OwnTables s
    → SelfMapped s
    → (virtaddr_to_pageindex virt).0 ≢ 1023
    → phys ≢ 0
    → phys % 0x1000 ≡ 0
    → virt ≢ 0
    → is_present (dir_entry s (virtaddr_to_pageindex virt).0) ≡ true
    → table_entry s (virtaddr_to_pageindex virt).0 (virtaddr_to_pageindex virt).1 ≡ 0
    → let (r, s') = mm_map_page s phys virt in
      (r ≡ pos 0)
      × (translate s' virt ≡ some phys)
      × ((v : ℕ)
          → ((virtaddr_to_pageindex v).0 ≢ (virtaddr_to_pageindex virt).0)
            ⊎ ((virtaddr_to_pageindex v).1 ≢ (virtaddr_to_pageindex virt).1)
          → translate s' v ≡ translate s v)
unfolding mm_map_page
mm_map_page_lem s phys virt own self below pn pa vn here empty =
    let t = (virtaddr_to_pageindex virt).0 in
    let p = (virtaddr_to_pageindex virt).1 in
    let e = present_entry phys in
    let apart = own-apart s t own self below here in
    let run : mm_map_page s phys virt ≡ (pos 0, set_table_entry s t p e) =
      ground (arith, pn, vn, here, empty) in
    let there : shown (dir_entry s t) e ≡ some phys = ground (arith, here, pa) in
    (
      ap (λ r. r.0) run,
      ap (λ r. translate r.1 virt) run
          ∙ ap₂ shown (dir_entry-kept s t p e t apart) (table_entry-set s t p e apart)
          ∙ there,
      λ v ne.
          ap (λ r. translate r.1 v) run
          ∙ shown-kept s t p e (virtaddr_to_pageindex v).0 (virtaddr_to_pageindex v).1 apart own
              here ne,
    )

-- Where the page table is missing and a page is free, `mm_map_page` makes the table of the first free
-- page, if that is not the directory, and maps the address; no other address of the table is mapped.
pub mm_map_page-new_table :
    (s : Pages) (phys virt x : ℕ) (xs : List ℕ)
    → phys ≢ 0
    → phys % 0x1000 ≡ 0
    → virt ≢ 0
    → is_present (dir_entry s (virtaddr_to_pageindex virt).0) ≡ false
    → Free s (x ∷ xs)
    → x ≢ s.page_dir
    → x % 0x1000 ≡ 0
    → let (r, s') = mm_map_page s phys virt in
      (r ≡ pos 0)
      × (translate s' virt ≡ some phys)
      × ((v : ℕ)
          → (virtaddr_to_pageindex v).0 ≡ (virtaddr_to_pageindex virt).0
          → (virtaddr_to_pageindex v).1 ≢ (virtaddr_to_pageindex virt).1
          → translate s' v ≡ none)
unfolding mm_map_page mm_alloc_physical_page
mm_map_page-new_table s phys virt x xs pn pa vn gone free other xa =
    (ground (arith, free), ground (arith, free), λ v t i. ground (arith, free))

any_present_lem :
    (k i : ℕ) (s : Pages) (pagetable : ℕ)
    → i < k
    → is_present (table_entry s pagetable i) ≡ true
    → any_present k s pagetable ≡ true
unfolding any_present
any_present_lem zero i s pagetable lt h = absurd (omega arith)
any_present_lem (suc k) i s pagetable lt h = ground (arith, any_present_lem k i s pagetable)

-- what `mm_unmap_page` does where the page table stays
abbrev pub Unmapped : ℕ × Pages → ℕ → Type 0
Unmapped (r, s') virt =
    (r ≡ 1) × (translate s' virt ≡ none) × ((p : ℕ) → (mm_map_page s' p virt).0 ≡ minus_one)

unmap_page_of-Unmapped :
    (k : ℕ) (s : Pages) (virt phys i : ℕ)
    → translate s virt ≡ some phys
    → (entry_page (dir_entry s (virtaddr_to_pageindex virt).0) ≢ s.page_dir)
      ⊎ ((virtaddr_to_pageindex virt).1 ≢ (virtaddr_to_pageindex virt).0)
    → i < k
    → i ≢ (virtaddr_to_pageindex virt).1
    → is_present (table_entry s (virtaddr_to_pageindex virt).0 i) ≡ true
    → Unmapped (unmap_page_of k s virt) virt
unfolding unmap_page_of mm_map_page
unmap_page_of-Unmapped k s virt phys i mapped apart lt ne other =
    let t = (virtaddr_to_pageindex virt).0 in
    let p = (virtaddr_to_pageindex virt).1 in
    let here : is_present (dir_entry s t) ≡ true = ground (arith, mapped) in
    let there : is_present (table_entry s t p) ≡ true = ground (arith, mapped) in
    let s1 = set_table_entry s t p 2 in
    let kept : any_present k s1 t ≡ true =
      any_present_lem k i s1 t lt (ground (arith, other, ne)) in
    let left : s1 ≡ (unmap_page_of k s virt).1 = ground (arith, here, there, kept) in
    (
      ground (arith, here, there),
      subst (λ s'. translate s' virt ≡ none) left (ground arith),
      λ q. subst (λ s'. (mm_map_page s' q virt).0 ≡ minus_one) left (ground (arith, here)),
    )

-- After `mm_unmap_page` of an address that is mapped by a table in which another page stays mapped,
-- nothing is mapped there; but the result is 1 and not the page, and `mm_map_page` of the same
-- address fails. The table is not the directory, or the entry is another one than the table's own.
pub mm_unmap_page-Unmapped :
    (s : Pages) (virt phys i : ℕ)
    → (entry_page (dir_entry s (virtaddr_to_pageindex virt).0) ≢ s.page_dir)
      ⊎ ((virtaddr_to_pageindex virt).1 ≢ (virtaddr_to_pageindex virt).0)
    → translate s virt ≡ some phys
    → i < 1024
    → i ≢ (virtaddr_to_pageindex virt).1
    → is_present (table_entry s (virtaddr_to_pageindex virt).0 i) ≡ true
    → Unmapped (mm_unmap_page s virt) virt
unfolding mm_unmap_page
mm_unmap_page-Unmapped s virt phys i apart mapped lt ne other =
    unmap_page_of-Unmapped 1024 s virt phys i mapped apart lt ne other
