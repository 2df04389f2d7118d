-- ===== src/Kernel/Pic.antt =====
-- kernel/src/arch/i386/pic.S: the two interrupt controllers, as the ports and bytes that are sent to them.
use n00b_os.Prelude.{
  ℕ, ◌-◌, ◌*◌, ◌/◌, ◌%◌, ◌^◌, Bool, not, ◌||◌, ltb, List, [], ◌∷◌, ◌++◌, if◌then◌else◌,
}

-- `jl` after a comparison of the lowest byte with 8, with its sign
abbrev on_master : ℕ → Bool
on_master irq = ltb (irq % 256) 8 || not (ltb (irq % 256) 128)

abbrev pub pic_disable_all : List (ℕ × ℕ)
pic_disable_all = (0x21, 0xFF) ∷ (0xA1, 0xFF) ∷ []

pub pic_init : List (ℕ × ℕ)
pic_init =
    pic_disable_all
    ++ ((0x20, 0x11)
        ∷ (0xA0, 0x11)
        ∷ (0x21, 32)
        ∷ (0xA1, 40)
        ∷ (0x21, 0b100)
        ∷ (0xA1, 0b10)
        ∷ (0x21, 0b101)
        ∷ (0xA1, 0b001)
        ∷ pic_disable_all)

pub pic_send_eoi : ℕ → List (ℕ × ℕ)
pic_send_eoi irq = (if on_master irq then 0x20 else 0xA0, 0x20) ∷ []

-- `btr` of a 16-bit register, of which the lower byte stays
abbrev clear_bit : ℕ → ℕ → ℕ
clear_bit k mask = if ltb (k % 16) 8 then mask - mask / 2 ^ (k % 16) % 2 * 2 ^ (k % 16) else mask

-- `input` is what the ports read.
unfoldable pub pic_enable : (ℕ → ℕ) → ℕ → List (ℕ × ℕ)
pic_enable input irq =
    if on_master irq
    then (0x21, clear_bit irq (input 0x21)) ∷ []
    else (0xA1, clear_bit (irq - 8) (input 0xA1)) ∷ []
