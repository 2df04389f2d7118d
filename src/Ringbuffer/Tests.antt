-- ===== src/Ringbuffer/Tests.antt =====
-- A ring buffer of four two-byte elements whose counters are about to wrap.
use n00b_os.Prelude.{inr, List, [], ◌∷◌, ◌^◌, ◌-◌, ◌≡◌, inl, arith, ◌==◌}
use n00b_os.Libk.Memory.{Memory, bytes}
use n00b_os.Ringbuffer.{
  Ringbuffer, ringbuffer_empty, ringbuffer_full, ringbuffer_put, ringbuffer_get,
}
use n00b_os.Ringbuffer.Inv.{IsValid, count, empty_full_count, put-IsValid, get-IsValid}
use n00b_os.Ringbuffer.Queue
use n00b_os.Ringbuffer.Fifo.{Event, put, get, write, InOrder, traffic, traffic-InOrder}
use n00b_os.Ringbuffer.Refine.{contents, put_refines, get_refines}

abbrev memory : Memory
memory a = a

abbrev ring : Ringbuffer
ring = record { size_elem = 2; nb_elems = 4; buffer = 100; head = 1; tail = 2 ^ 32 - 1 }

ring-IsValid : IsValid ring
ring-IsValid = omega arith

empty_full_count_example :
    (ringbuffer_empty ring ≡ (count ring == 0)) × (ringbuffer_full ring ≡ (count ring == 4))
empty_full_count_example = empty_full_count ring-IsValid

put-IsValid_test : IsValid (ringbuffer_put ring memory 200).1
put-IsValid_test = put-IsValid memory 200 ring-IsValid

get-IsValid_test : IsValid (ringbuffer_get ring memory 200).1
get-IsValid_test = get-IsValid memory 200 ring-IsValid

put_refines_example :
    let (r, ring', memory') = ringbuffer_put ring memory 200 in
    (r, contents ring' memory') ≡ Queue.put 4 (contents ring memory) (bytes memory 200 2)
put_refines_example = put_refines memory 200 ring-IsValid (inl (omega arith))

get_refines_example :
    let (r, ring', memory') = ringbuffer_get ring memory 200 in
    (r, bytes memory' 200 2, contents ring' memory')
    ≡ Queue.get (contents ring memory) (bytes memory 200 2)
get_refines_example = get_refines memory 200 ring-IsValid (inl (omega arith))

-- the third call finds the ring buffer full
abbrev events : List Event
events = put 200 ∷ put 202 ∷ put 204 ∷ write 200 7 ∷ get 300 ∷ put 200 ∷ get 300 ∷ []

traffic-InOrder_example : InOrder (contents ring memory) (traffic ring memory events)
traffic-InOrder_example = traffic-InOrder ring memory events ring-IsValid (
  inl (omega arith),
  (
    inl (omega arith),
    (
      inl (omega arith),
      (inr (omega arith), (inl (omega arith), (inl (omega arith), (inl (omega arith), tt)))),
    ),
  ),
)
