-- ===== src/Ringbuffer/Refine.antt =====
-- A valid ring buffer behaves as the bounded queue of the elements that wait in it.
use n00b_os.Prelude.{
  ℕ, suc, ◌+◌, ◌-◌, ◌*◌, ◌%◌, ◌^◌, ◌≤◌, ◌<◌, ◌≡◌, ◌⊎◌, inl, inr, arith, ap, ◌∙◌, ◌≢◌, ◌++◌, [], ◌∷◌,
}
use n00b_os.Libk.Memory.{Memory, Apart, Apart-symm, bytes}
use n00b_os.Libk.Mem.{memcpy}
use n00b_os.Libk.Mem.Laws.{memcpy-copies, memcpy-outside}
use n00b_os.Ringbuffer.{Ringbuffer, slot, ringbuffer_put, ringbuffer_get}
use n00b_os.Ringbuffer.Inv.{IsValid, count}
use n00b_os.Ringbuffer.Queue
use n00b_os.Ringbuffer.Queue.{Queue}
use n00b_os.Ringbuffer.Slots.{
  window, length-window, window_of_ne_zero, window-put, slot_source, window-frame,
}

-- the elements that wait, oldest first
abbrev pub contents : Ringbuffer → Memory → Queue
contents rb m = window rb.buffer rb.size_elem rb.nb_elems m rb.tail (count rb)

-- the bytes of the caller's object do not lie in the buffer
abbrev pub Outside : Ringbuffer → ℕ → Type 0
Outside rb p = Apart rb.buffer (rb.nb_elems * rb.size_elem) p rb.size_elem

module _ {rb : Ringbuffer} (m : Memory) (v : IsValid rb) where
  pub contents-put :
      (source : ℕ)
      → count rb < rb.nb_elems
      → Outside rb source
      → contents
          (record rb { head = (rb.head + 1) % 2 ^ 32 })
          (memcpy m (slot rb rb.head) source rb.size_elem)
        ≡ contents rb m ++ (bytes m source rb.size_elem ∷ [])
  contents-put source room out =
      ap
        (window rb.buffer rb.size_elem rb.nb_elems (memcpy m (slot rb rb.head) source rb.size_elem)
          rb.tail)
        {y = suc (count rb)} (omega arith)
      ∙ window-put rb.buffer rb.size_elem rb.nb_elems m source rb.tail (count rb) rb.head
          v.some_elems room v.tail_in v.divides out (omega arith)

  pub contents-cons :
      rb.head ≢ rb.tail
      → contents rb m
        ≡ bytes m (slot rb rb.tail) rb.size_elem
          ∷ contents (record rb { tail = (rb.tail + 1) % 2 ^ 32 }) m
  contents-cons ne =
      window_of_ne_zero rb.buffer rb.size_elem rb.nb_elems m rb.tail (count rb) (omega arith)
      ∙ ap
          (λ k.
            bytes m (slot rb rb.tail) rb.size_elem
            ∷ window rb.buffer rb.size_elem rb.nb_elems m ((rb.tail + 1) % 2 ^ 32) k)
          (omega arith)

  pub target-Apart :
      (target : ℕ) → Outside rb target → Apart target rb.size_elem (slot rb rb.tail) rb.size_elem
  target-Apart target out =
      Apart-symm (slot rb rb.tail) rb.size_elem target rb.size_elem
        (slot_source rb.buffer rb.size_elem rb.nb_elems m target rb.tail v.some_elems out)

  pub contents-frame :
      (target : ℕ)
      → Outside rb target
      → contents
          (record rb { tail = (rb.tail + 1) % 2 ^ 32 })
          (memcpy m target (slot rb rb.tail) rb.size_elem)
        ≡ contents (record rb { tail = (rb.tail + 1) % 2 ^ 32 }) m
  contents-frame target out =
      window-frame rb.buffer rb.size_elem rb.nb_elems m
        (memcpy m target (slot rb rb.tail) rb.size_elem) ((rb.tail + 1) % 2 ^ 32)
        ((rb.head + 2 ^ 32 - (rb.tail + 1) % 2 ^ 32) % 2 ^ 32) v.some_elems
        (λ a lo hi.
          memcpy-outside m target (slot rb rb.tail) rb.size_elem a (target-Apart target out)
            (outside out lo hi))
    where
      outside :
          {a : ℕ}
          → Outside rb target
          → rb.buffer ≤ a
          → a < rb.buffer + rb.nb_elems * rb.size_elem
          → (a < target) ⊎ (target + rb.size_elem ≤ a)
      outside (inl h) lo hi = inl (omega arith)
      outside (inr h) lo hi = inr (omega arith)

-- `ringbuffer_put` returns what `Queue.put` returns for the element at `source`, and leaves the
-- ring buffer holding its queue, if the element lies outside the buffer.
pub put_refines :
    {rb : Ringbuffer} (m : Memory) (source : ℕ)
    → IsValid rb
    → Outside rb source
    → let (r, rb', m') = ringbuffer_put rb m source in
      (r, contents rb' m') ≡ Queue.put rb.nb_elems (contents rb m) (bytes m source rb.size_elem)
unfolding ringbuffer_put Queue.put
put_refines {rb} m source v out = ground (
  arith,
  length-window rb.buffer rb.size_elem rb.nb_elems m rb.tail (count rb),
  contents-put m v source,
)

-- `ringbuffer_get` returns what `Queue.get` returns, writes its element to `target`, and leaves
-- the ring buffer holding the rest, if `target` lies outside the buffer.
pub get_refines :
    {rb : Ringbuffer} (m : Memory) (target : ℕ)
    → IsValid rb
    → Outside rb target
    → let (r, rb', m') = ringbuffer_get rb m target in
      (r, bytes m' target rb.size_elem, contents rb' m')
      ≡ Queue.get (contents rb m) (bytes m target rb.size_elem)
unfolding ringbuffer_get Queue.get
get_refines {rb} m target v out = ground (
  arith,
  contents-cons m v,
  contents-frame m v target out,
  memcpy-copies m target (slot rb rb.tail) rb.size_elem (target-Apart m v target out),
)
