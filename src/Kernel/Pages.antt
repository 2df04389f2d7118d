-- ===== src/Kernel/Pages.antt =====
-- What the heap and the stacks use of the page allocator (kernel/include/kernel/mm.h).
use n00b_os.Prelude.{ℕ, Bool, ℤ}

pub record PageSource : Type 1 where
  pub State : Type 0
  -- 0 where no page is left
  pub alloc_physical_page : Bool → State → ℕ × State
  pub free_physical_page : ℕ → State → State
  -- physical address, virtual address; 0 on success
  pub map_page : ℕ → ℕ → State → ℤ × State
