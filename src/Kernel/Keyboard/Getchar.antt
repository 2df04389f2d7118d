-- ===== src/Kernel/Keyboard/Getchar.antt =====
-- Characters come out in the order in which keys were pressed.
use n00b_os.Prelude.{
  ℕ, ◌≡◌, ap, ◌∙◌, subst, Bool-cases, inl, inr, some, [], ◌∷◌, arith, get_or, pos,
}
use n00b_os.Libk.Memory.{bytes}
use n00b_os.Ringbuffer.{ringbuffer_empty, ringbuffer_get}
use n00b_os.Ringbuffer.Refine.{contents, get_refines}
use n00b_os.Ringbuffer.Queue
use n00b_os.Kernel.Keyboard.{Keyboard, kbd_getchar}
use n00b_os.Kernel.Keyboard.Keys.{IsReady, waiting}

-- `kbd_getchar`, where `thechar` lies outside of the buffer and the character `c` has waited longest,
-- returns `c`, and the others still wait.
pub kbd_getchar-waiting :
    (k : Keyboard) (thechar c : ℕ) (q : Queue.Queue)
    → IsReady k thechar
    → waiting k ≡ (c ∷ []) ∷ q
    → (k' : Keyboard) × (kbd_getchar k thechar ≡ some (pos c, k')) × (waiting k' ≡ q)
unfolding kbd_getchar ringbuffer_get ringbuffer_empty Queue.get bytes
kbd_getchar-waiting k thechar c q h first =
    let got = ringbuffer_get k.ringbuffer k.memory thechar in
    let old = bytes k.memory thechar k.ringbuffer.size_elem in
    let refined : (got.0, bytes got.2 thechar k.ringbuffer.size_elem, contents got.1 got.2)
        ≡ (pos 0, c ∷ [], q) =
      get_refines k.memory thechar h.valid h.outside ∙ ap (λ w. Queue.get w old) first in
    let char : bytes got.2 thechar 1 ≡ c ∷ [] =
      subst (λ n. bytes got.2 thechar n ≡ c ∷ []) h.char (ap (λ r. r.1) refined) in
    let error : got.0 ≡ pos 0 = ap (λ r. r.0) refined in
    let is : got.2 thechar ≡ c = ap (λ l. get_or l 0 0) char in
    let k' : Keyboard = record k { ringbuffer = got.1; memory = got.2 } in
    elim (Bool-cases (ringbuffer_empty k.ringbuffer)) [
      | inl empty ↦ absurd (ground (arith, empty, error))
      | inr free ↦ (k', ground (arith, free, error, is), ap (λ r. r.2) refined)
    ]
