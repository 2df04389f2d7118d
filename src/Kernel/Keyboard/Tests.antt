-- ===== src/Kernel/Keyboard/Tests.antt =====
-- A keyboard whose ring buffer of 8 characters is at 100.
use n00b_os.Libk.Memory.{bytes}
use n00b_os.Kernel.Keyboard.Getchar.{kbd_getchar-waiting}
use n00b_os.Prelude.{some, pos, ◌==◌, if◌then◌else◌, ◌+◌, ◌≡◌, refl, inl, [], ◌∷◌, arith}
use n00b_os.Kernel.Keyboard.{Keyboard, kbd_handle_key, kbd_getchar}
use n00b_os.Kernel.Keyboard.Keys.{
  IsReady, waiting, meaning, repeated, kbd_handle_key-press, shift_held,
}
use n00b_os.Ringbuffer.Queue

abbrev keyboard : Keyboard
keyboard = record {
  state_shift = 0;
  ringbuffer = record { size_elem = 1; nb_elems = 8; buffer = 100; head = 0; tail = 0 };
  memory = λ a. 0;
}

keyboard-IsReady : IsReady keyboard 200
keyboard-IsReady = record { valid = omega arith; char = refl; outside = inl (omega arith) }

-- the key `a`
kbd_handle_key-press_example :
    waiting (kbd_handle_key keyboard 200 0x10)
    ≡ (Queue.put 8 (waiting keyboard) (meaning keyboard 0x10 ∷ [])).1
kbd_handle_key-press_example =
    kbd_handle_key-press keyboard 200 0x10 keyboard-IsReady refl refl (omega arith)

-- The left shift key that was held stays down.
shift_held_test : (kbd_handle_key (repeated 3 keyboard 200 0x2A) 200 0xAA).state_shift ≡ 0 + 2
shift_held_test = shift_held 2 keyboard 200 0x2A 0xAA refl refl refl refl refl refl (omega arith)

-- The key "a" was pressed.
abbrev pressed : Keyboard
pressed = record {
  state_shift = 0;
  ringbuffer = record { size_elem = 1; nb_elems = 8; buffer = 100; head = 1; tail = 0 };
  memory = λ a. if a == 100 then 97 else 0;
}

pressed-IsReady : IsReady pressed 200
pressed-IsReady = record { valid = omega arith; char = refl; outside = inl (omega arith) }

pressed-waiting : waiting pressed ≡ (97 ∷ []) ∷ []
unfolding bytes
pressed-waiting = refl

kbd_getchar-waiting_test :
    (k' : Keyboard) × (kbd_getchar pressed 200 ≡ some (pos 97, k')) × (waiting k' ≡ [])
kbd_getchar-waiting_test = kbd_getchar-waiting pressed 200 97 [] pressed-IsReady pressed-waiting
