-- ===== src/Libk/Malloc/Realloc.antt =====
-- libk/src/all/stdlib/malloc.c: `realloc`.
pub mod Places
pub mod Moved
pub mod Apart
pub mod Fits
pub mod Grows
use n00b_os.Prelude.{ℕ, ◌+◌, ◌||◌, ltb, ◌==◌, if◌then◌else◌}
use n00b_os.Kernel.Pages.{PageSource}
use n00b_os.Libk.Malloc.{
  sub32, aligned_size, Heap, Outcome, returned, blocked, panicked, out_of_fuel, malloc, free,
}
use n00b_os.Libk.Malloc.Bytes.{copy_bytes}

module _ (P : PageSource) (max_align : ℕ) where
  -- `memcpy` to the new block at `destptr`
  pub move : ℕ → Heap P → ℕ → ℕ → Heap P
  unfolding copy_bytes
  move destptr h ptr size =
      let init_size = h.memory (sub32 ptr (aligned_size max_align 8) + 4) in
      let length_to_copy = if ltb size init_size then size else init_size in
      record h { memory = copy_bytes length_to_copy 0 destptr ptr h.memory }

  -- the result of `free`, where `realloc` returns `destptr`
  after_free : ℕ → Outcome P → Outcome P
  after_free destptr (returned _ h) = returned destptr h
  after_free destptr blocked = blocked
  after_free destptr panicked = panicked
  after_free destptr out_of_fuel = out_of_fuel

  -- `realloc` with what `malloc` gave
  pub with_block : ℕ → ℕ → ℕ → Outcome P → Outcome P
  unfolding move after_free
  with_block tid ptr size (returned destptr h) =
      if (destptr == 0) || (ptr == 0)
      then returned destptr h
      else after_free destptr (free P max_align tid (move destptr h ptr size) ptr)
  with_block tid ptr size blocked = blocked
  with_block tid ptr size panicked = panicked
  with_block tid ptr size out_of_fuel = out_of_fuel

  pub realloc : ℕ → ℕ → Heap P → ℕ → ℕ → Outcome P
  unfolding with_block
  realloc fuel tid h ptr size =
      let block = malloc P max_align fuel tid h size in
      with_block tid ptr size (if size == 0 then returned 0 h else block)
