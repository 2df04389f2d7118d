-- ===== src/Libk/Allocator.antt =====
-- What the kernel uses of malloc, realloc and free (libk/include/stdlib.h).
pub mod Bump
use n00b_os.Prelude.{ℕ}

pub record Allocator : Type 1 where
  pub State : Type 0
  -- 0 where there is no memory
  pub malloc : ℕ → State → ℕ × State
  pub free : ℕ → State → State
  -- 0 where there is no memory; else what was in the old block is in the new one
  pub realloc : ℕ → ℕ → State → ℕ × State
