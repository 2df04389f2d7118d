-- ===== src/Libk/Allocator/Bump.antt =====
-- An allocator for tests: it hands out one block behind the other, and memory is never given back.
use n00b_os.Prelude.{ℕ, ◌+◌}
use n00b_os.Libk.Allocator.{Allocator}

abbrev pub bump : Allocator
bump = record {
  State = ℕ;
  malloc = λ size next. (next, next + size);
  free = λ p next. next;
  realloc = λ p size next. (next, next + size);
}
