-- ===== src/Ringbuffer/Inv.antt =====
-- The invariant of `struct ringbuffer`: the counters are 32-bit, at most `nb_elems` apart, and a
-- wrap of a counter does not move its slot.
use n00b_os.Prelude.{ℕ, ◌+◌, ◌-◌, ◌%◌, ◌^◌, ◌≤◌, ◌<◌, ◌≡◌, arith, ◌==◌}
use n00b_os.Libk.Memory.{Memory}
use n00b_os.Ringbuffer.{
  Ringbuffer, ringbuffer_empty, ringbuffer_full, ringbuffer_put, ringbuffer_get,
}

-- how many elements wait
abbrev pub count : Ringbuffer → ℕ
count rb = (rb.head + 2 ^ 32 - rb.tail) % 2 ^ 32

pub record IsValid (rb : Ringbuffer) : Type 0 where
  pub head_in : rb.head < 2 ^ 32
  pub tail_in : rb.tail < 2 ^ 32
  pub some_elems : 0 < rb.nb_elems
  pub bounded : count rb ≤ rb.nb_elems
  pub divides : 2 ^ 32 % rb.nb_elems ≡ 0
  pub small : rb.nb_elems < 2 ^ 32

-- `ringbuffer_empty` and `ringbuffer_full` tell exactly when no element waits and when `nb_elems` do.
pub empty_full_count :
    {rb : Ringbuffer}
    → IsValid rb
    → (ringbuffer_empty rb ≡ (count rb == 0)) × (ringbuffer_full rb ≡ (count rb == rb.nb_elems))
unfolding ringbuffer_empty ringbuffer_full
empty_full_count v = (ground arith, ground arith)

pub put-IsValid :
    {rb : Ringbuffer} (m : Memory) (source : ℕ)
    → IsValid rb
    → IsValid (ringbuffer_put rb m source).1
unfolding ringbuffer_put
put-IsValid m source v = ground arith

pub get-IsValid :
    {rb : Ringbuffer} (m : Memory) (target : ℕ)
    → IsValid rb
    → IsValid (ringbuffer_get rb m target).1
unfolding ringbuffer_get
get-IsValid m target v = ground arith
