-- ===== src/Kernel/Terminal/Screen.antt =====
-- What is on the screen, and where the cursor stands.
use n00b_os.Prelude.{
  ℕ, zero, suc, ◌+◌, ◌-◌, ◌*◌, ◌%◌, ◌<◌, ◌≡◌, inl, refl, arith, ltb, leb, ◌&&◌, List, [], ◌∷◌, ◌==◌,
  if◌then◌else◌,
}
use n00b_os.Libk.Memory.{Memory}
use n00b_os.Libk.Mem.{memcpy}
use n00b_os.Libk.Mem.Laws.{memcpy_lem}
use n00b_os.Kernel.Terminal.{
  Terminal, vga_width, vga_height, vga_entry, put_entry, blank, space, scroll_up, terminal_putchar,
  terminal_write, terminal_putentryat,
}

-- the cursor is on the screen
abbrev pub OnScreen : Terminal → Type 0
OnScreen t = (t.row < vga_height) × (t.column < vga_width)

-- `terminal_putchar` leaves the cursor on the screen.
pub terminal_putchar-OnScreen :
    (t : Terminal) (m : Memory) (c : ℕ) → OnScreen t → OnScreen (terminal_putchar t m c).0
unfolding terminal_putchar
terminal_putchar-OnScreen t m c h = ground arith

-- After any text the cursor is on the screen, if it was before.
pub terminal_write-OnScreen :
    (t : Terminal) (m : Memory) (text : List ℕ) → OnScreen t → OnScreen (terminal_write t m text).0
unfolding terminal_write
terminal_write-OnScreen t m [] h = h
terminal_write-OnScreen t m (c ∷ text) h =
    terminal_write-OnScreen (terminal_putchar t m c).0 (terminal_putchar t m c).1 text
      (terminal_putchar-OnScreen t m c h)

-- the entry at an index: character and color
abbrev pub entry : Memory → ℕ → ℕ → ℕ × ℕ
entry m buffer index = (m (buffer + 2 * index), m (buffer + 2 * index + 1))

put_entry_lem :
    (m : Memory) (buffer index c color a : ℕ)
    → put_entry m buffer index (vga_entry c color) a ≡ (
        if a == buffer + 2 * index
        then c % 256
        else if a == buffer + 2 * index + 1
        then color % 256
        else m a)
unfolding put_entry vga_entry
put_entry_lem m buffer index c color a = ground arith

blank_lem :
    (k index buffer color : ℕ) (m : Memory) (j : ℕ)
    → entry (blank k index buffer color m) buffer j
      ≡ (if leb index j && ltb j (index + k) then (space, color % 256) else entry m buffer j)
unfolding blank
blank_lem zero index buffer color m j = ground arith
blank_lem (suc k) index buffer color m j = ground (
  arith,
  blank_lem k (index + 1) buffer color (put_entry m buffer index (vga_entry space color)) j,
  put_entry_lem m buffer index space color (buffer + 2 * j),
  put_entry_lem m buffer index space color (buffer + 2 * j + 1),
)

scrolled :
    (k index buffer color : ℕ) (m : Memory) (x y : ℕ)
    → k ≡ vga_width
    → index ≡ (vga_height - 1) * vga_width
    → x < vga_width
    → y < vga_height
    → entry
        (blank k index buffer color
          (memcpy m buffer (buffer + 2 * vga_width) (2 * (vga_height - 1) * vga_width)))
        buffer
        (y * vga_width + x)
      ≡ (if y == vga_height - 1
          then (space, color % 256)
          else entry m buffer ((y + 1) * vga_width + x))
scrolled k index buffer color m x y ek ei lx ly =
    let j = y * vga_width + x in
    let copy = λ (a : ℕ).
      memcpy_lem m buffer (buffer + 2 * vga_width) (2 * (vga_height - 1) * vga_width) a
        (inl (omega arith)) in
    let before : buffer + 160 + (buffer + 2 * j - buffer) ≡ buffer + 2 * ((y + 1) * vga_width + x) =
      omega arith in
    let before' : buffer + 160 + (buffer + 2 * j + 1 - buffer)
        ≡ buffer + 2 * ((y + 1) * vga_width + x) + 1 =
      omega arith in
    ground (
      arith,
      blank_lem k index buffer color
          (memcpy m buffer (buffer + 2 * vga_width) (2 * (vga_height - 1) * vga_width)) j,
      copy (buffer + 2 * j),
      copy (buffer + 2 * j + 1),
      before,
      before',
    )

-- `scroll_up` shows each line where the line above it was, and a blank line of the current color at
-- the bottom.
pub scroll_up_lem :
    (t : Terminal) (m : Memory) (x y : ℕ)
    → x < vga_width
    → y < vga_height
    → entry (scroll_up t m) t.buffer (y * vga_width + x) ≡ (
        if y == vga_height - 1
        then (space, t.color % 256)
        else entry m t.buffer ((y + 1) * vga_width + x))
unfolding scroll_up
scroll_up_lem t m x y lx ly =
    scrolled vga_width ((vga_height - 1) * vga_width) t.buffer t.color m x y refl refl lx ly

-- `terminal_putentryat` shows a character at its place and leaves the other places alone.
pub terminal_putentryat_lem :
    (t : Terminal) (m : Memory) (c color x y x' y' : ℕ)
    → x < vga_width
    → x' < vga_width
    → entry (terminal_putentryat t m c color x y) t.buffer (y' * vga_width + x') ≡ (
        if (x == x') && (y == y')
        then (c % 256, color % 256)
        else entry m t.buffer (y' * vga_width + x'))
unfolding terminal_putentryat
terminal_putentryat_lem t m c color x y x' y' lx lx' = ground (
  arith,
  put_entry_lem m t.buffer (y * vga_width + x) c color (t.buffer + 2 * (y' * vga_width + x')),
  put_entry_lem m t.buffer (y * vga_width + x) c color (t.buffer + 2 * (y' * vga_width + x') + 1),
)
