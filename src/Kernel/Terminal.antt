-- ===== src/Kernel/Terminal.antt =====
-- kernel/src/arch/i386/tty.c: the text screen, 25 rows of 80 cells, in byte memory. A cell is two
-- bytes, the character's and then the color's.
pub mod Screen
mod Tests
use n00b_os.Libk.Strings.{strlen}
use n00b_os.Prelude.{
  Option, none, some, ℕ, zero, suc, ◌+◌, ◌-◌, ◌*◌, ◌/◌, ◌%◌, ◌^◌, ltb, List, [], ◌∷◌, ◌==◌, ◌||◌,
  if◌then◌else◌, bit_or,
}
use n00b_os.Libk.Memory.{bytes, Memory, store}
use n00b_os.Libk.Mem.{memcpy}

-- the variables of the file
pub record Terminal : Type 0 where
  pub row : ℕ
  pub column : ℕ
  pub color : ℕ
  pub buffer : ℕ

abbrev pub vga_width : ℕ
vga_width = 80

abbrev pub vga_height : ℕ
vga_height = 25

-- VGA_COLOR_GREEN
abbrev green : ℕ
green = 2

-- VGA_COLOR_BLACK
abbrev black : ℕ
black = 0

abbrev newline : ℕ
newline = 10

abbrev pub space : ℕ
space = 32

vga_entry_color : ℕ → ℕ → ℕ
vga_entry_color fg bg = bit_or fg (bg * 2 ^ 4) % 256

-- The two bytes share no bit: `|` is `+`.
pub vga_entry : ℕ → ℕ → ℕ
vga_entry uc color = uc % 256 + color % 256 * 2 ^ 8

-- `terminal_buffer[index] = entry`
pub put_entry : Memory → ℕ → ℕ → ℕ → Memory
put_entry m buffer index entry =
    store (store m (buffer + 2 * index) (entry % 256)) (buffer + 2 * index + 1) (entry / 256)

-- `k` entries from `index` on made blank
pub blank : ℕ → ℕ → ℕ → ℕ → Memory → Memory
unfolding put_entry vga_entry
blank zero index buffer color m = m
blank (suc k) index buffer color m =
    blank k (index + 1) buffer color (put_entry m buffer index (vga_entry space color))

-- Row after row, the entries' indices are consecutive.
pub terminal_initialize : Memory → Terminal × Memory
unfolding blank vga_entry_color
terminal_initialize m =
    let color = vga_entry_color green black in
    let buffer = 753664 + 3221225472 in
    (
      record { row = 0; column = 0; color = color; buffer = buffer },
      blank (vga_height * vga_width) 0 buffer color m,
    )

pub terminal_setcolor : Terminal → ℕ → Terminal
terminal_setcolor t color = record t { color = color }

pub terminal_putentryat : Terminal → Memory → ℕ → ℕ → ℕ → ℕ → Memory
unfolding put_entry vga_entry
terminal_putentryat t m c color x y = put_entry m t.buffer (y * vga_width + x) (vga_entry c color)

-- the screen moved up a line and its last line cleared
pub scroll_up : Terminal → Memory → Memory
unfolding blank
scroll_up t m =
    blank vga_width ((vga_height - 1) * vga_width) t.buffer t.color
      (memcpy m t.buffer (t.buffer + 2 * vga_width) (2 * (vga_height - 1) * vga_width))

pub terminal_putchar : Terminal → Memory → ℕ → Terminal × Memory
unfolding terminal_putentryat scroll_up
terminal_putchar t m c =
    let put = if c == newline then m else terminal_putentryat t m c t.color t.column t.row in
    let column = if c == newline then t.column else t.column + 1 in
    if c == newline || column == vga_width
    then (if t.row + 1 == vga_height
        then (record t { column = 0; row = vga_height - 1 }, scroll_up t put)
        else (record t { column = 0; row = t.row + 1 }, put))
    else (record t { column = column }, put)

pub terminal_write : Terminal → Memory → List ℕ → Terminal × Memory
unfolding terminal_putchar
terminal_write t m [] = (t, m)
terminal_write t m (c ∷ data') =
    let shown = terminal_putchar t m c in terminal_write shown.0 shown.1 data'

-- `data` is an address; `none` is a string that goes on
pub terminal_writestring : ℕ → Terminal → Memory → ℕ → Option (Terminal × Memory)
unfolding terminal_write
terminal_writestring fuel t m data' = elim (strlen fuel m data') [
  | none ↦ none
  | some size ↦ some (terminal_write t m (bytes m data' size))
]
