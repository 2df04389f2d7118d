-- ===== src/Kernel/Stack.antt =====
-- kernel/src/arch/i386/mm/stack.c: the kernel stacks of threads, four pages each, below
-- `stacks_start`; a bitmap tells which are in use. The semaphore is free where it is acquired.
pub mod Bits
pub mod Top
pub mod Sample
mod Tests
use n00b_os.Prelude.{
  ℕ, zero, suc, ◌+◌, ◌-◌, ◌*◌, ◌/◌, ◌%◌, ◌^◌, Bool, true, false, Option, none, some, List, [], ◌∷◌,
  ltb, ◌==◌, if◌then◌else◌, set, get_or, is_zero, length, ◌||◌,
}
use n00b_os.Kernel.PageAllocator.{
  Pages, mm_alloc_physical_page, mm_free_physical_page, mm_map_page, mm_unmap_page,
}
use n00b_os.Libk.Allocator.{Allocator}
use n00b_os.Libk.Malloc.{page_size}
use mathlib.Core.Option

-- MM_STACK_PAGE_SIZE
abbrev stack_page_size : ℕ
stack_page_size = 4

-- `(bitfield & test) == test` for the bit `i`
abbrev pub is_set : ℕ → ℕ → Bool
is_set bitfield i = bitfield / 2 ^ i % 2 == 1

-- the loop of `find_free_bit`, whose end is a panic
find_bit_from : ℕ → ℕ → ℕ → Option ℕ
find_bit_from zero i bitfield = none
find_bit_from (suc k) i bitfield =
    let rest = find_bit_from k (i + 1) bitfield in if is_set bitfield i then rest else some i

-- `none` stands for -1, and for the panic, which cannot be reached
pub find_free_bit : ℕ → Option ℕ
unfolding find_bit_from
find_free_bit bitfield = if bitfield == 2 ^ 32 - 1 then none else find_bit_from 32 0 bitfield

-- The loop over the bitmaps of `mm_alloc_stack`: the number of the stack, counted over all bitmaps,
-- and the bitmaps with its bit, which was 0, set.
pub take_bit : List ℕ → ℕ → Option (ℕ × List ℕ)
unfolding find_free_bit
take_bit [] bitmap_id = none
take_bit (b ∷ bitmaps) bitmap_id =
    let later = Option.map (λ t. (t.0, b ∷ t.1)) (take_bit bitmaps (bitmap_id + 1)) in
    elim (find_free_bit b) [
      | some i ↦ some (32 * bitmap_id + i, (b + 2 ^ i) ∷ bitmaps)
      | none ↦ later
    ]

-- frees the pages of an array that is kept with its last page first, in the array's order
free_pages : List ℕ → Pages → Pages
free_pages [] s = s
free_pages (p ∷ ps) s = mm_free_physical_page (free_pages ps s) p

-- The loop that allocates pages: the array, or none where a page is missing.
alloc_pages : ℕ → List ℕ → Pages → Option (List ℕ) × Pages
unfolding free_pages
alloc_pages zero pages s = (some pages, s)
alloc_pages (suc k) pages s =
    let a = mm_alloc_physical_page s true in
    let rest = alloc_pages k (a.0 ∷ pages) a.1 in
    if a.0 == 0 then (none, free_pages pages a.1) else rest

-- The loop that maps `pages[i-1]` at `stack_top - 0x1000*i`, with the array's last page first: whether
-- all are mapped. The pages after one that fails are not mapped.
map_pages : List ℕ → ℕ → Pages → Bool × Pages
map_pages [] stack_top s = (true, s)
map_pages (p ∷ ps) stack_top s =
    let before = map_pages ps stack_top s in
    let m = mm_map_page before.1 p (stack_top - 0x1000 * (length ps + 1)) in
    if before.0 then (is_zero m.0, m.1) else before

-- what the file keeps in `mm_ring_info_t`, with the memory of the stacks
pub record Stacks : Type 0 where
  pub stacks_start : ℕ
  pub stacks_bitmaps : List ℕ
  pub words : ℕ → ℕ

abbrev pub stack_top_of : ℕ → ℕ → ℕ
stack_top_of stacks_start n = stacks_start - n * stack_page_size * page_size

-- the two canaries and the address of the process control block
abbrev mark_stack : (ℕ → ℕ) → ℕ → ℕ → ℕ → ℕ
mark_stack words base new_pcb a =
    if a == base + 0x3FF8
    then new_pcb
    else if (a == base + 0x3FF0) || (a == base + 0xC)
    then 0xDEADBEEF
    else words a

-- The stack pointer, 0 where memory is missing; `none` is the panic for want of a bitmap. Stacks are
-- aligned to their size: `base | 0x3FF0` is a sum.
unfoldable pub mm_alloc_stack : Stacks → Pages → ℕ → Option (ℕ × Stacks × Pages)
unfolding alloc_pages map_pages take_bit free_pages
mm_alloc_stack info s new_pcb =
    let (allocated, s1) = alloc_pages stack_page_size [] s in
    elim allocated [
      | none ↦ some (0, info, s1)
      | some pages ↦ elim (take_bit info.stacks_bitmaps 0) [
        | none ↦ none
        | some taken ↦
            let info1 = record info { stacks_bitmaps = taken.1 } in
            let stack_top = stack_top_of info.stacks_start taken.0 in
            let mapped = map_pages pages stack_top s1 in
            let base = stack_top - 4 * 4096 in
            if mapped.0
            then some (
              base + 0x3FF0,
              record info1 { words = mark_stack info.words base new_pcb },
              mapped.1,
            )
            else some (0, info1, free_pages pages mapped.1)
      ]
    ]

-- the loop of `mm_free_stack`, from page `i` on
unmap_pages : ℕ → ℕ → ℕ → Pages → Pages
unmap_pages zero i stack_top s = s
unmap_pages (suc k) i stack_top s =
    let u = mm_unmap_page s (stack_top - 0x1000 * i) in
    unmap_pages k (i + 1) stack_top (mm_free_physical_page u.1 u.0)

-- `bitmap & ~(1 << bit)`
abbrev pub clear_bit : ℕ → ℕ → ℕ
clear_bit bitmap bit = if is_set bitmap bit then bitmap - 2 ^ bit else bitmap

pub mm_free_stack : Stacks → Pages → ℕ → Stacks × Pages
unfolding unmap_pages
mm_free_stack info s sp =
    let n = (info.stacks_start - sp) / (stack_page_size * page_size) in
    let bitmap_id = n / 32 in
    (
      record info {
        stacks_bitmaps =
            set info.stacks_bitmaps bitmap_id
              (clear_bit (get_or info.stacks_bitmaps bitmap_id 0) (n % 32));
      },
      unmap_pages stack_page_size 1 (stack_top_of info.stacks_start n) s,
    )

-- the loop of `mm_init_stack`, from page `i` on; `none` is a panic
extend_stack : ℕ → ℕ → Pages → Option Pages
extend_stack zero i s = some s
extend_stack (suc k) i s =
    let page = mm_alloc_physical_page s true in
    let m = mm_map_page page.1 page.0 (0xFFBFE000 - 0x1000 * i) in
    let rest = extend_stack k (i + 1) m.1 in
    if page.0 == 0 then none else if is_zero m.0 then rest else none

-- The first stack gets the rest of its pages, its canary and its bitmap, whose address is not kept;
-- `none` is a panic.
pub mm_init_stack : (A : Allocator) → Stacks → Pages → A.State → Option (Stacks × Pages × A.State)
unfolding extend_stack
mm_init_stack A info s heap =
    let (bitmap, heap') = A.malloc 4 heap in
    elim (extend_stack 3 0 s) [
      | none ↦ none
      | some s' ↦
          if bitmap == 0
          then none
          else some (
            record info {
              stacks_bitmaps = 1 ∷ [];
              words = λ a. if a == 0xFFBFC00C then 0xDEADBEEF else info.words a;
            },
            s',
            heap',
          )
    ]
