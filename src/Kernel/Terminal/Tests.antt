-- ===== src/Kernel/Terminal/Tests.antt =====
-- A screen at address 1000.
use n00b_os.Prelude.{◌+◌, ◌-◌, ◌*◌, ◌%◌, ◌≡◌, [], ◌∷◌, arith, ◌==◌, ◌&&◌, if◌then◌else◌}
use n00b_os.Libk.Memory.{Memory}
use n00b_os.Kernel.Terminal.{
  Terminal, vga_width, vga_height, space, scroll_up, terminal_putchar, terminal_putentryat,
  terminal_write,
}
use n00b_os.Kernel.Terminal.Screen.{
  OnScreen, entry, terminal_putchar-OnScreen, terminal_write-OnScreen, scroll_up_lem,
  terminal_putentryat_lem,
}

abbrev screen : Terminal
screen = record { row = 24; column = 79; color = 2; buffer = 1000 }

abbrev memory : Memory
memory a = a % 256

terminal_putchar-OnScreen_example : OnScreen (terminal_putchar screen memory 65).0
terminal_putchar-OnScreen_example =
    terminal_putchar-OnScreen screen memory 65 (omega arith, omega arith)

terminal_write-OnScreen_example : OnScreen (terminal_write screen memory (65 ∷ 10 ∷ [])).0
terminal_write-OnScreen_example =
    terminal_write-OnScreen screen memory (65 ∷ 10 ∷ []) (omega arith, omega arith)

scroll_up_lem_example : entry (scroll_up screen memory) 1000 (3 * vga_width + 5) ≡ (
    if 3 == vga_height - 1 then (space, 2 % 256) else entry memory 1000 ((3 + 1) * vga_width + 5))
scroll_up_lem_example = scroll_up_lem screen memory 5 3 (omega arith) (omega arith)

terminal_putentryat_lem_test :
    entry (terminal_putentryat screen memory 65 3 5 6) 1000 (6 * vga_width + 5)
    ≡ (if (5 == 5) && (6 == 6) then (65 % 256, 3 % 256) else entry memory 1000 (6 * vga_width + 5))
terminal_putentryat_lem_test =
    terminal_putentryat_lem screen memory 65 3 5 6 5 6 (omega arith) (omega arith)
