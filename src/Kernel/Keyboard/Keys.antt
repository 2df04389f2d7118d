-- ===== src/Kernel/Keyboard/Keys.antt =====
-- What a key press adds to the characters that wait.
use n00b_os.Prelude.{
  ℕ, zero, suc, ◌+◌, ◌^◌, ◌<◌, ◌≡◌, ◌≢◌, sym, ap, ap₂, ◌∙◌, true, false, [], ◌∷◌, arith, ◌==◌,
  if◌then◌else◌, subst,
}
use n00b_os.Libk.Memory.{Memory, store, bytes}
use n00b_os.Ringbuffer.{ringbuffer_put}
use n00b_os.Ringbuffer.Inv.{IsValid, count}
use n00b_os.Ringbuffer.Queue
use n00b_os.Ringbuffer.Slots.{window-frame}
use n00b_os.Ringbuffer.Refine.{contents, Outside, put_refines}
use n00b_os.Kernel.Keyboard.{
  regular, modifier, Keyboard, key_spec, scan_ascii, scan_shift, key_up, key_code, get_active_mod,
  add_mods, remove_mods, kbd_handle_key,
}

-- the ring buffer holds characters, and the handler's variable lies outside it
pub record IsReady (k : Keyboard) (local : ℕ) : Type 0 where
  pub valid : IsValid k.ringbuffer
  pub char : k.ringbuffer.size_elem ≡ 1
  pub outside : Outside k.ringbuffer local

-- the characters that wait
abbrev pub waiting : Keyboard → Queue.Queue
waiting k = contents k.ringbuffer k.memory

-- the character that a key stands for: the upper one while a shift key is held
abbrev pub meaning : Keyboard → ℕ → ℕ
meaning k scan = scan_ascii (key_code scan) (if k.state_shift == 0 then 0 else 1)

stored :
    (k : Keyboard) (local ascii : ℕ)
    → IsReady k local
    → contents k.ringbuffer (store k.memory local ascii) ≡ waiting k
stored k local ascii h =
    window-frame k.ringbuffer.buffer k.ringbuffer.size_elem k.ringbuffer.nb_elems k.memory
      (store k.memory local ascii) k.ringbuffer.tail (count k.ringbuffer) h.valid.some_elems
      (λ a lo hi. ground (arith, h.char, h.outside))

one_byte : (m : Memory) (p ascii n : ℕ) → n ≡ 1 → bytes (store m p ascii) p n ≡ ascii ∷ []
unfolding bytes
one_byte m p ascii n e =
    subst (λ k. bytes (store m p ascii) p k ≡ ascii ∷ []) (sym e) (ground arith)

put_char :
    (k : Keyboard) (local ascii : ℕ)
    → IsReady k local
    → contents
        (ringbuffer_put k.ringbuffer (store k.memory local ascii) local).1
        (ringbuffer_put k.ringbuffer (store k.memory local ascii) local).2
      ≡ (Queue.put k.ringbuffer.nb_elems (waiting k) (ascii ∷ [])).1
put_char k local ascii h =
    let m = store k.memory local ascii in
    ap (λ p. p.1) (put_refines m local h.valid h.outside)
    ∙ ap₂ (λ q x. (Queue.put k.ringbuffer.nb_elems q x).1) (stored k local ascii h)
        (one_byte k.memory local ascii k.ringbuffer.size_elem h.char)

-- Pressing a key that has a character puts the character that the key stands for, by the shift keys
-- that are held, behind those that wait, and drops it if the buffer is full.
pub kbd_handle_key-press :
    (k : Keyboard) (local scan : ℕ)
    → IsReady k local
    → key_spec (key_code scan) ≡ regular
    → key_up scan ≡ false
    → meaning k scan ≢ 0
    → waiting (kbd_handle_key k local scan)
      ≡ (Queue.put k.ringbuffer.nb_elems (waiting k) (meaning k scan ∷ [])).1
unfolding kbd_handle_key get_active_mod
kbd_handle_key-press k local scan h reg down ne =
    let c = meaning k scan in ground (arith, reg, down, ne, put_char k local c h)

-- the same scan code `n` times, as a key that is held repeats it
abbrev pub repeated : ℕ → Keyboard → ℕ → ℕ → Keyboard
repeated zero k local scan = k
repeated (suc n) k local scan = kbd_handle_key (repeated n k local scan) local scan

repeated-state_shift :
    (n : ℕ) (k : Keyboard) (local scan : ℕ)
    → key_spec (key_code scan) ≡ modifier
    → key_up scan ≡ false
    → scan_shift (key_code scan) ≡ 1
    → k.state_shift + n < 2 ^ 8
    → (repeated n k local scan).state_shift ≡ k.state_shift + n
unfolding kbd_handle_key add_mods
repeated-state_shift zero k local scan kind down one lt = omega arith
repeated-state_shift (suc n) k local scan kind down one lt =
    ground (arith, kind, down, one, repeated-state_shift n k local scan kind down one (omega arith))

-- After a shift key has sent its press `n + 1` times and its release once, `n` presses still count:
-- only a key that did not repeat is up again.
pub shift_held :
    (n : ℕ) (k : Keyboard) (local press release : ℕ)
    → key_spec (key_code press) ≡ modifier
    → key_up press ≡ false
    → scan_shift (key_code press) ≡ 1
    → key_spec (key_code release) ≡ modifier
    → key_up release ≡ true
    → scan_shift (key_code release) ≡ 1
    → k.state_shift + suc n < 2 ^ 8
    → (kbd_handle_key (repeated (suc n) k local press) local release).state_shift
      ≡ k.state_shift + n
unfolding kbd_handle_key remove_mods
shift_held n k local press release kind down one kind' up one' lt =
    ground (arith, kind', up, one', repeated-state_shift (suc n) k local press kind down one lt)
