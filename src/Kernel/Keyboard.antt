-- ===== src/Kernel/Keyboard.antt =====
-- kernel/src/all/kernel/input/keyboard.c: scan codes of a french keyboard become characters in a
-- ring buffer.
pub mod Keys
pub mod Getchar
mod Tests
use n00b_os.Prelude.{
  ℕ, ◌+◌, ◌-◌, ◌/◌, ◌%◌, ◌^◌, Bool, Option, none, some, ℤ, pos, minus_one, is_zero, List, [], ◌∷◌,
  get_or, ltb, ◌==◌, if◌then◌else◌,
}
use n00b_os.Libk.Memory.{Memory, store}
use n00b_os.Ringbuffer.{Ringbuffer, ringbuffer_empty, ringbuffer_put, ringbuffer_get}

-- `enum kbd_key_type`
pub data KeyType : Type 0 where
  none_key : KeyType
  modifier : KeyType
  lock : KeyType
  regular : KeyType

-- `default_kbd.specs`; the keys from 0x3A on are NONE
abbrev specs : List KeyType
specs =
    none_key ∷ regular ∷ regular ∷ regular ∷ regular ∷ regular ∷ regular ∷ regular ∷ regular
    ∷ regular ∷ regular ∷ regular ∷ regular ∷ regular ∷ regular ∷ regular ∷ regular ∷ regular
    ∷ regular ∷ regular ∷ regular ∷ regular ∷ regular ∷ regular ∷ regular ∷ regular ∷ none_key
    ∷ none_key ∷ regular ∷ none_key ∷ regular ∷ regular ∷ regular ∷ regular ∷ regular ∷ regular
    ∷ regular ∷ regular ∷ regular ∷ regular ∷ none_key ∷ none_key ∷ modifier ∷ none_key ∷ regular
    ∷ regular ∷ regular ∷ regular ∷ regular ∷ regular ∷ regular ∷ regular ∷ regular ∷ regular
    ∷ modifier ∷ none_key ∷ none_key ∷ regular ∷ []

-- `default_kbd.scans`: the byte of each of a key's two unions; those from 0x3A on are 0
abbrev scans : List (ℕ × ℕ)
scans =
    (0, 0)
    ∷ (27, 27)
    ∷ (38, 49)
    ∷ (0, 50)
    ∷ (34, 51)
    ∷ (39, 52)
    ∷ (40, 53)
    ∷ (45, 54)
    ∷ (0, 55)
    ∷ (95, 56)
    ∷ (0, 57)
    ∷ (0, 48)
    ∷ (41, 0)
    ∷ (61, 43)
    ∷ (8, 8)
    ∷ (9, 9)
    ∷ (97, 65)
    ∷ (122, 90)
    ∷ (101, 69)
    ∷ (114, 82)
    ∷ (116, 84)
    ∷ (121, 89)
    ∷ (117, 85)
    ∷ (105, 73)
    ∷ (111, 79)
    ∷ (112, 80)
    ∷ (0, 0)
    ∷ (0, 0)
    ∷ (10, 10)
    ∷ (0, 0)
    ∷ (113, 81)
    ∷ (115, 83)
    ∷ (100, 68)
    ∷ (102, 70)
    ∷ (103, 71)
    ∷ (104, 72)
    ∷ (106, 74)
    ∷ (107, 75)
    ∷ (108, 76)
    ∷ (109, 77)
    ∷ (0, 0)
    ∷ (0, 0)
    ∷ (1, 0)
    ∷ (0, 0)
    ∷ (119, 87)
    ∷ (120, 88)
    ∷ (99, 67)
    ∷ (118, 86)
    ∷ (98, 66)
    ∷ (110, 78)
    ∷ (44, 63)
    ∷ (59, 46)
    ∷ (58, 47)
    ∷ (33, 0)
    ∷ (1, 0)
    ∷ (0, 0)
    ∷ (0, 0)
    ∷ (32, 32)
    ∷ []

abbrev pub key_spec : ℕ → KeyType
key_spec scan_code = get_or specs scan_code none_key

-- `default_kbd.scans[scan_code][active_mod].reg.ascii`
abbrev pub scan_ascii : ℕ → ℕ → ℕ
scan_ascii scan_code active_mod =
    let unions = get_or scans scan_code (0, 0) in if active_mod == 0 then unions.0 else unions.1

-- the bit field `mod.shift` of a key's first union
abbrev pub scan_shift : ℕ → ℕ
scan_shift scan_code = scan_ascii scan_code 0 % 2

-- the variables of the file, with the memory that `ringbuffer` and its callers use
pub record Keyboard : Type 0 where
  pub state_shift : ℕ
  pub ringbuffer : Ringbuffer
  pub memory : Memory

-- KEY_UP, as the `bool` that it is stored in
abbrev pub key_up : ℕ → Bool
key_up scan = ltb 0 (scan / 2 ^ 7)

-- KEY_CODE
abbrev pub key_code : ℕ → ℕ
key_code scan = scan % 2 ^ 7

pub get_active_mod : ℕ → ℕ
get_active_mod state_shift = if state_shift == 0 then 0 else 1

pub add_mods : ℕ → ℕ → ℕ
add_mods state_shift shift = (state_shift + shift) % 2 ^ 8

pub remove_mods : ℕ → ℕ → ℕ
remove_mods state_shift shift =
    if state_shift == 0 then 0 else (state_shift + 2 ^ 8 - shift) % 2 ^ 8

-- `local` is the address of `scan_reg.ascii`. The result of `ringbuffer_put` is not looked at.
pub kbd_handle_key : Keyboard → ℕ → ℕ → Keyboard
unfolding get_active_mod add_mods remove_mods
kbd_handle_key k local scan =
    let scan_code = key_code scan in
    let ascii = scan_ascii scan_code (get_active_mod k.state_shift) in
    let chosen = store k.memory local ascii in
    let put = ringbuffer_put k.ringbuffer chosen local in
    elim (key_spec scan_code) [
      | none_key ↦ k
      | lock ↦ k
      | regular ↦
          if key_up scan
          then k
          else if ascii == 0
          then record k { memory = chosen }
          else record k { ringbuffer = put.1; memory = put.2 }
      | modifier ↦
          if key_up scan
          then record k { state_shift = remove_mods k.state_shift (scan_shift scan_code) }
          else record k { state_shift = add_mods k.state_shift (scan_shift scan_code) }
    ]

-- `thechar` is the address of that variable. `none` waits for a key; a thread that waits has the
-- semaphore, and so no other thread takes the character.
unfoldable pub kbd_getchar : Keyboard → ℕ → Option (ℤ × Keyboard)
kbd_getchar k thechar =
    let (error, rb, m) = ringbuffer_get k.ringbuffer k.memory thechar in
    if ringbuffer_empty k.ringbuffer
    then none
    else some (
      if is_zero error then pos (m thechar) else minus_one,
      record k { ringbuffer = rb; memory = m },
    )
