-- ===== src/Kernel/Ps2.antt =====
-- kernel/src/arch/i386/input: ps2.c, which lets the keyboard interrupt, and the handler of interrupts.S.
use n00b_os.Prelude.{◌-◌, ℕ, ◌*◌, ◌/◌, ◌%◌, ◌≡◌, refl, List, [], ◌∷◌, arith}
use n00b_os.Kernel.Interrupts.{Idt, itr_set_handler}
use n00b_os.Kernel.Interrupts.Gates.{gate_handler}
use n00b_os.Kernel.Pic.{pic_send_eoi, pic_enable}
use n00b_os.Kernel.Keyboard.{Keyboard, kbd_handle_key}

-- `irq1` is the address of `irq1_handler`.
pub ps2_init : (ℕ → ℕ) → ℕ → Idt → Idt × List (ℕ × ℕ)
ps2_init input irq1 idt = (itr_set_handler idt 33 0x8E 8 irq1, pic_enable input 1)

-- `scan` is the byte that the port of the keyboard reads.
pub irq1_handler : Keyboard → ℕ → ℕ → Keyboard × List (ℕ × ℕ)
irq1_handler keyboard local scan = (kbd_handle_key keyboard local (scan % 256), pic_send_eoi 1)

-- The interrupt of the keyboard then leads to `irq1_handler`, and the mask that is sent to the first controller
-- lets interrupt 1 through and is the same for the others.
pub ps2_init_lem :
    (input : ℕ → ℕ) (irq1 : ℕ) (idt : Idt)
    → let (idt', sent) = ps2_init input irq1 idt in
      (gate_handler (idt' 33) ≡ irq1)
      × (mask : ℕ) × (sent ≡ (0x21, mask) ∷ [])
      × (mask / 2 % 2 ≡ 0)
      × (mask % 2 ≡ input 0x21 % 2)
      × (mask / 4 ≡ input 0x21 / 4)
unfolding ps2_init itr_set_handler pic_enable
ps2_init_lem input irq1 idt =
    (omega arith, input 0x21 - input 0x21 / 2 % 2 * 2, refl, omega arith, omega arith, omega arith)
