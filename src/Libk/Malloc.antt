-- ===== src/Libk/Malloc.antt =====
-- libk/src/all/stdlib/malloc.c: a best-fit allocator with boundary tags. Memory is read a 32-bit
-- word at a time, at the word's address. A `uintptr_t` or `size_t` result wraps. The `bool` of a marker is the
-- word that it lies in: nothing reads or writes the three bytes of padding behind it.
pub mod Layout
pub mod Search
pub mod Place
pub mod Align
pub mod Inv
pub mod Fit
pub mod Joins
pub mod Merge
pub mod Kept
pub mod Free
pub mod Paged
pub mod Grow
pub mod Tail
pub mod Extend
pub mod NoFit
pub mod Bytes
pub mod Realloc
mod Tests
use n00b_os.Prelude.{
  ℕ, zero, suc, ◌+◌, ◌-◌, ◌*◌, ◌%◌, ◌^◌, Bool, true, false, not, ◌&&◌, ◌||◌, Option, none, some,
  ltb, leb, ◌==◌, if◌then◌else◌, is_zero,
}
use n00b_os.Libk.Memory.{Memory, store}
use n00b_os.Kernel.Semaphore.{Semaphore, semaphore_acquire, semaphore_release}
use n00b_os.Kernel.Pages.{PageSource}

abbrev pub canary : ℕ
canary = 0xCAFEBABE

abbrev pub page_size : ℕ
page_size = 4096

abbrev pub u32 : ℕ → ℕ
u32 n = n % 2 ^ 32

abbrev pub sub32 : ℕ → ℕ → ℕ
sub32 a b = (a + 2 ^ 32 - b) % 2 ^ 32

-- a `bool` in memory
abbrev pub flag : Bool → ℕ
flag true = 1
flag false = 0

-- where the search ends; `last` and `best_ptr` are 0 for NULL
pub record Found : Type 0 where
  pub best_ptr : ℕ
  pub best_size : ℕ
  pub last : ℕ

-- `max_align` is `alignof(max_align_t)`, which the compiler's headers fix.
module _ (max_align : ℕ) where
  pub aligned_size : ℕ → ℕ
  aligned_size size =
      let modulo = size % max_align in u32 (size + (if modulo == 0 then 0 else max_align - modulo))

  -- Both markers are structs of 8 bytes.
  abbrev pub start_size : ℕ
  start_size = aligned_size 8

  abbrev pub end_size : ℕ
  end_size = aligned_size 8

  pub mark_chunck : Memory → ℕ → ℕ → Bool → Memory
  mark_chunck m insertion_point useable_size is_free =
      let end = u32 (insertion_point + useable_size + start_size) in
      store
        (store (store (store m insertion_point (flag is_free)) (insertion_point + 4) useable_size)
          end useable_size)
        (end + 4) canary

  -- The loop of `malloc` over the chunks from `ptr` on. The initial `best_size` is never read.
  pub search : ℕ → Memory → ℕ → ℕ → ℕ → Found → Option Found
  search zero m useable_size heap_end ptr found = none
  search (suc fuel) m useable_size heap_end ptr found =
      let size = m (ptr + 4) in
      let better =
        not (m ptr == 0)
        && leb useable_size size
        && (found.best_ptr == 0 || ltb size found.best_size) in
      let now : Found =
        if better
        then record { best_ptr = ptr; best_size = size; last = ptr }
        else record found { last = ptr } in
      let rest =
        search fuel m useable_size heap_end (u32 (ptr + size + start_size + end_size)) now in
      if ltb ptr heap_end
      then (if better && size == useable_size then some now else rest)
      else some found

module _ (P : PageSource) where
  -- the kernel's `mm_ring_info_t`, with the memory and the pages behind it
  pub record Heap : Type 0 where
    pub memory : Memory
    pub heap_semaphore : Semaphore
    pub heap_start : ℕ
    pub heap_end : ℕ
    pub pages : P.State

  pub data Outcome : Type 0 where
    -- the pointer that is returned, 0 for NULL
    returned : ℕ → Heap → Outcome
    -- the semaphore is taken: the thread yields and tries again
    blocked : Outcome
    panicked : Outcome
    out_of_fuel : Outcome

module _ (P : PageSource) (max_align : ℕ) where
  abbrev M : ℕ
  M = aligned_size max_align 8

  -- the end of either way through `malloc`
  abbrev hand_out : Heap P → Memory → ℕ → Outcome P
  hand_out h m insertion_point =
      returned (u32 (insertion_point + M))
        (record h { memory = m; heap_semaphore = semaphore_release h.heap_semaphore })

  -- `malloc` where the search found a chunk
  pub use_chunck : Heap P → ℕ → ℕ → ℕ → Outcome P
  use_chunck h useable_size best_ptr best_size =
      if ltb (u32 (useable_size + M + M)) best_size
      then (let rest =
            mark_chunck max_align h.memory (u32 (best_ptr + useable_size + M + M))
              (sub32 (sub32 (sub32 best_size useable_size) M) M) true in
          hand_out h (mark_chunck max_align rest best_ptr useable_size false) best_ptr)
      else hand_out h (mark_chunck max_align h.memory best_ptr best_size false) best_ptr

  -- The loop that increases the heap until `wanted` bytes are free at its end. `none`: panic.
  pub grow : ℕ → Heap P → ℕ → ℕ → Option (Option (Heap P × ℕ))
  grow zero h free_size wanted = none
  grow (suc fuel) h free_size wanted =
      let (new_page, pages) = P.alloc_physical_page true h.pages in
      let (error, mapped) = P.map_page new_page h.heap_end pages in
      let more =
        grow fuel (record h { heap_end = u32 (h.heap_end + page_size); pages = mapped })
          (u32 (free_size + page_size)) wanted in
      if ltb free_size wanted
      then (if new_page == 0 then some none else if is_zero error then more else some none)
      else some (some (h, free_size))

  -- `malloc` with the heap increased
  pub use_end : Heap P → ℕ → ℕ → ℕ → Outcome P
  use_end h useable_size insertion_point free_size =
      if ltb (u32 (useable_size + 2 * M + 2 * M)) free_size
      then (let rest =
            mark_chunck max_align h.memory (u32 (insertion_point + useable_size + M + M))
              (sub32 (sub32 (sub32 free_size useable_size) (2 * M)) (2 * M)) true in
          hand_out h (mark_chunck max_align rest insertion_point useable_size false)
            insertion_point)
      else hand_out h
          (mark_chunck max_align h.memory insertion_point (sub32 (sub32 free_size M) M) false)
          insertion_point

  -- `malloc` where the search found nothing
  pub extend : ℕ → Heap P → ℕ → ℕ → Outcome P
  unfolding grow use_end
  extend fuel h useable_size last =
      let merge = not (last == 0) && not (h.memory last == 0) in
      let insertion_point = if merge then last else h.heap_end in
      let free_size = if merge then u32 (h.memory (last + 4) + M + M) else 0 in
      elim (grow fuel h free_size (u32 (useable_size + M + M))) [
        | none ↦ out_of_fuel
        | some none ↦ panicked
        | some (some (h', total)) ↦ use_end h' useable_size insertion_point total
      ]

  pub malloc : ℕ → ℕ → Heap P → ℕ → Outcome P
  malloc fuel tid h size =
      let useable_size = aligned_size max_align size in
      if size == 0 then returned 0 h else elim (semaphore_acquire tid h.heap_semaphore) [
        | none ↦ blocked
        | some taken ↦
            let locked = record h { heap_semaphore = taken } in
            elim (search max_align fuel h.memory useable_size h.heap_end h.heap_start
              (record { best_ptr = 0; best_size = 0; last = 0 })) [
                | none ↦ out_of_fuel
                | some found ↦
                    if found.best_ptr == 0
                    then extend fuel locked useable_size found.last
                    else use_chunck locked useable_size found.best_ptr found.best_size
              ]
      ]

  -- `free` with the canary checked and the semaphore taken: the merge with the chunk after
  pub merge_after : Heap P → ℕ → Memory
  merge_after h start =
      let m = store h.memory start (flag true) in
      let after = u32 (start + M + m (start + 4) + M) in
      if ltb after h.heap_end && not (m after == 0)
      then mark_chunck max_align m start (u32 (m (start + 4) + m (after + 4) + M + M)) true
      else m

  -- and with the chunk before; `none`: panic
  pub merge_before : Heap P → ℕ → Memory → Option Memory
  merge_before h start m =
      let end_before = sub32 start M in
      if ltb h.heap_start end_before
      then (let before = sub32 (sub32 end_before (m end_before)) M in
          if m (end_before + 4) == canary
          then some (
              if not (m before == 0)
              then mark_chunck max_align m before (u32 (m (start + 4) + m (before + 4) + M + M))
                  true
              else m)
          else none)
      else some m

  pub free : ℕ → Heap P → ℕ → Outcome P
  unfolding merge_after merge_before
  free tid h ptr =
      let start = sub32 ptr M in
      if ptr == 0
      then returned 0 h
      else if not (h.memory (u32 (ptr + h.memory (start + 4)) + 4) == canary)
      then panicked
      else elim (semaphore_acquire tid h.heap_semaphore) [
        | none ↦ blocked
        | some taken ↦
            let locked = record h { heap_semaphore = taken } in
            elim (merge_before locked start (merge_after locked start)) [
              | none ↦ panicked
              | some m ↦
                  returned 0
                    (record locked { memory = m; heap_semaphore = semaphore_release taken })
            ]
      ]
