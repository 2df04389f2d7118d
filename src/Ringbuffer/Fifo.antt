-- ===== src/Ringbuffer/Fifo.antt =====
-- A ring buffer in use: elements are put and got in any order, while the rest of memory changes.
use n00b_os.Prelude.{
  ℕ, ◌+◌, ◌*◌, ◌%◌, ◌^◌, ◌≤◌, ◌<◌, ◌≡◌, ◌⊎◌, inl, inr, arith, sym, ap, ◌∙◌, subst, ◌≢◌, List, ◌++◌,
  [], ◌∷◌, append_assoc, append-nil, ℤ, pos, negsuc, minus_one, Bool-cases,
}
use n00b_os.Libk.Memory.{Memory, store, Apart, bytes}
use n00b_os.Libk.Mem.{memcpy}
use n00b_os.Libk.Mem.Laws.{memcpy-copies}
use n00b_os.Ringbuffer.{
  Ringbuffer, slot, ringbuffer_full, ringbuffer_empty, ringbuffer_put, ringbuffer_get,
}
use n00b_os.Ringbuffer.Inv.{IsValid, count, put-IsValid, get-IsValid}
use n00b_os.Ringbuffer.Queue.{Queue}
use n00b_os.Ringbuffer.Slots.{window-frame}
use n00b_os.Ringbuffer.Refine.{contents, contents-put, contents-cons, contents-frame, target-Apart}

pub data Event : Type 0 where
  -- a call of `ringbuffer_put` with the element at an address
  put : ℕ → Event
  -- a call of `ringbuffer_get` that writes to an address
  get : ℕ → Event
  -- a byte that other code writes to an address
  write : ℕ → ℕ → Event

pub record Traffic : Type 0 where
  -- the elements for which `ringbuffer_put` returned 0, as they were then, and those that
  -- `ringbuffer_get` wrote where it returned 0
  pub accepted : Queue
  pub delivered : Queue
  pub ring : Ringbuffer
  pub memory : Memory

-- an element in front of others where the call succeeded
abbrev with_result : ℤ → List ℕ → Queue → Queue
with_result (pos _) x q = x ∷ q
with_result (negsuc _) x q = q

abbrev after_put : List ℕ → ℤ → Traffic → Traffic
after_put x r t = record t { accepted = with_result r x t.accepted }

abbrev after_get : List ℕ → ℤ → Traffic → Traffic
after_get x r t = record t { delivered = with_result r x t.delivered }

abbrev pub traffic : Ringbuffer → Memory → List Event → Traffic
traffic rb m [] = record { accepted = []; delivered = []; ring = rb; memory = m }
traffic rb m (put source ∷ es) =
    let (r, rb', m') = ringbuffer_put rb m source in
    after_put (bytes m source rb.size_elem) r (traffic rb' m' es)
traffic rb m (get target ∷ es) =
    let (r, rb', m') = ringbuffer_get rb m target in
    after_get (bytes m' target rb.size_elem) r (traffic rb' m' es)
traffic rb m (write a v ∷ es) = traffic rb (store m a v) es

-- No event touches the `room` bytes of the buffer itself, where elements are of `size` bytes.
abbrev pub KeepOff : (buffer room size : ℕ) → List Event → Type 0
KeepOff buffer room size [] = Unit
KeepOff buffer room size (put source ∷ es) =
    Apart buffer room source size × KeepOff buffer room size es
KeepOff buffer room size (get target ∷ es) =
    Apart buffer room target size × KeepOff buffer room size es
KeepOff buffer room size (write a v ∷ es) =
    ((a < buffer) ⊎ (buffer + room ≤ a)) × KeepOff buffer room size es

-- What came out and what waits is what waited before and what was put in, in this order.
abbrev pub InOrder : Queue → Traffic → Type 0
InOrder before t = IsValid t.ring × (t.delivered ++ contents t.ring t.memory ≡ before ++ t.accepted)

put_cases :
    (rb : Ringbuffer) (m : Memory) (source : ℕ)
    → IsValid rb
    → (ringbuffer_put rb m source ≡ (minus_one, rb, m))
      ⊎ ((count rb < rb.nb_elems)
          × (ringbuffer_put rb m source ≡ (
            pos 0,
            record rb { head = (rb.head + 1) % 2 ^ 32 },
            memcpy m (slot rb rb.head) source rb.size_elem,
          )))
unfolding ringbuffer_put ringbuffer_full
put_cases rb m source v = elim (Bool-cases (ringbuffer_full rb)) [
  | inl full ↦ inl (ground (arith, full))
  | inr room ↦ inr (ground (arith, room), ground (arith, room))
]

get_cases :
    (rb : Ringbuffer) (m : Memory) (target : ℕ)
    → (ringbuffer_get rb m target ≡ (minus_one, rb, m))
      ⊎ ((rb.head ≢ rb.tail)
          × (ringbuffer_get rb m target ≡ (
            pos 0,
            record rb { tail = (rb.tail + 1) % 2 ^ 32 },
            memcpy m target (slot rb rb.tail) rb.size_elem,
          )))
unfolding ringbuffer_get ringbuffer_empty
get_cases rb m target = elim (Bool-cases (ringbuffer_empty rb)) [
  | inl nothing ↦ inl (ground (arith, nothing))
  | inr some ↦ inr (ground (arith, some), ground (arith, some))
]

-- Whatever calls of `ringbuffer_put` and `ringbuffer_get` follow each other on a valid ring buffer, with writes
-- to other memory between them, where no element and no write lies in the buffer: the ring buffer stays
-- valid, and the elements that were got, then those that wait in it, are those that waited before, then those
-- that were put where the call returned 0, in their order and as they were when they were put.
pub traffic-InOrder :
    (rb : Ringbuffer) (m : Memory) (es : List Event)
    → IsValid rb
    → KeepOff rb.buffer (rb.nb_elems * rb.size_elem) rb.size_elem es
    → InOrder (contents rb m) (traffic rb m es)
traffic-InOrder rb m [] v off = (v, sym (append-nil (contents rb m)))
traffic-InOrder rb m (put source ∷ es) v off =
    let x = bytes m source rb.size_elem in
    let Goal : ℤ × Ringbuffer × Memory → Type 0 =
      λ o. InOrder (contents rb m) (after_put x o.0 (traffic o.1 o.2 es)) in
    elim (put_cases rb m source v) [
      | inl e ↦ subst Goal (sym e) (traffic-InOrder rb m es v off.1)
      | inr (room, e) ↦
          let rb' = record rb { head = (rb.head + 1) % 2 ^ 32 } in
          let m' = memcpy m (slot rb rb.head) source rb.size_elem in
          let acc = (traffic rb' m' es).accepted in
          let next =
            traffic-InOrder rb' m' es (subst (λ o. IsValid o.1) e (put-IsValid m source v)) off.1 in
          subst Goal (sym e) (
            next.0,
            next.1
                ∙ ap (λ q. q ++ acc) (contents-put m v source room off.0)
                ∙ append_assoc (contents rb m) (x ∷ []) acc,
          )
    ]
traffic-InOrder rb m (get target ∷ es) v off =
    let Goal : ℤ × Ringbuffer × Memory → Type 0 = λ o.
      InOrder (contents rb m)
        (after_get (bytes o.2 target rb.size_elem) o.0 (traffic o.1 o.2 es)) in
    elim (get_cases rb m target) [
      | inl e ↦ subst Goal (sym e) (traffic-InOrder rb m es v off.1)
      | inr (ne, e) ↦
          let rb' = record rb { tail = (rb.tail + 1) % 2 ^ 32 } in
          let m' = memcpy m target (slot rb rb.tail) rb.size_elem in
          let acc = (traffic rb' m' es).accepted in
          let y = bytes m' target rb.size_elem in
          let next =
            traffic-InOrder rb' m' es (subst (λ o. IsValid o.1) e (get-IsValid m target v)) off.1 in
          subst Goal (sym e) (
            next.0,
            ap (λ q. y ∷ q) (next.1 ∙ ap (λ q. q ++ acc) (contents-frame m v target off.0))
                ∙ ap (λ z. z ∷ (contents rb' m ++ acc))
                    (memcpy-copies m target (slot rb rb.tail) rb.size_elem
                      (target-Apart m v target off.0))
                ∙ ap (λ q. q ++ acc) (sym (contents-cons m v ne)),
          )
    ]
traffic-InOrder rb m (write a w ∷ es) v off =
    let next = traffic-InOrder rb (store m a w) es v off.1 in
    let acc = (traffic rb (store m a w) es).accepted in
    (
      next.0,
      next.1
          ∙ ap (λ q. q ++ acc)
              (window-frame rb.buffer rb.size_elem rb.nb_elems m (store m a w) rb.tail (count rb)
                v.some_elems (λ b lo hi. ground (arith, off.0))),
    )
