-- ===== src/Ringbuffer.antt =====
-- kernel/src/all/kernel/ringbuffer.c: a ring of fixed-size elements with free-running 32-bit
-- counters. The elements lie in byte memory, and `memcpy` moves them.
pub mod Inv
pub mod Queue
pub mod Slots
pub mod Refine
pub mod Fifo
mod Tests
use n00b_os.Prelude.{ℕ, ◌+◌, ◌-◌, ◌*◌, ◌%◌, ◌^◌, Bool, ◌==◌, if◌then◌else◌, ℤ, pos, minus_one}
use n00b_os.Libk.Memory.{Memory}
use n00b_os.Libk.Mem.{memcpy}

-- `struct ringbuffer`; `buffer` is an address
pub record Ringbuffer : Type 0 where
  pub size_elem : ℕ
  pub nb_elems : ℕ
  pub buffer : ℕ
  pub head : ℕ
  pub tail : ℕ

-- `&rb->buffer[OFFSET(rb, position)]`
abbrev pub slot : Ringbuffer → ℕ → ℕ
slot rb position = rb.buffer + position % rb.nb_elems * rb.size_elem

unfoldable pub ringbuffer_empty : Ringbuffer → Bool
ringbuffer_empty rb = rb.head == rb.tail

-- `size_t` subtraction wraps.
pub ringbuffer_full : Ringbuffer → Bool
ringbuffer_full rb = (rb.head + 2 ^ 32 - rb.tail) % 2 ^ 32 == rb.nb_elems

-- `data` is an address
pub ringbuffer_put : Ringbuffer → Memory → ℕ → ℤ × Ringbuffer × Memory
unfolding ringbuffer_full
ringbuffer_put rb m source = if ringbuffer_full rb then (minus_one, rb, m) else (
  pos 0,
  record rb { head = (rb.head + 1) % 2 ^ 32 },
  memcpy m (slot rb rb.head) source rb.size_elem,
)

unfoldable pub ringbuffer_get : Ringbuffer → Memory → ℕ → ℤ × Ringbuffer × Memory
unfolding ringbuffer_empty
ringbuffer_get rb m target = if ringbuffer_empty rb then (minus_one, rb, m) else (
  pos 0,
  record rb { tail = (rb.tail + 1) % 2 ^ 32 },
  memcpy m target (slot rb rb.tail) rb.size_elem,
)
