-- ===== src/Kernel/Interrupts/Gates.antt =====
-- What a gate of the interrupt descriptor table holds.
use n00b_os.Prelude.{ℕ, ◌+◌, ◌*◌, ◌/◌, ◌%◌, ◌^◌, ◌<◌, ◌≡◌, arith, ◌==◌, if◌then◌else◌}
use n00b_os.Kernel.Interrupts.{Idt, itr_set_handler}

-- the parts of a gate, as the processor reads them
abbrev pub gate_handler : ℕ × ℕ → ℕ
gate_handler g = g.1 / 2 ^ 16 * 2 ^ 16 + g.0 % 2 ^ 16

abbrev pub gate_segment : ℕ × ℕ → ℕ
gate_segment g = g.0 / 2 ^ 16

abbrev pub gate_type : ℕ × ℕ → ℕ
gate_type g = g.1 / 2 ^ 8 % 2 ^ 8

-- The gate that `itr_set_handler` writes holds the handler, the segment and the type, where these have 32,
-- 16 and 8 bits; the other gates stay.
pub itr_set_handler_lem :
    (idt : Idt) (itr type cs handler n : ℕ)
    → type < 2 ^ 8
    → cs < 2 ^ 16
    → let g = itr_set_handler idt itr type cs handler in
      (gate_handler (g itr) ≡ handler)
      × (gate_segment (g itr) ≡ cs)
      × (gate_type (g itr) ≡ type)
      × (g n ≡ (if n == itr then g itr else idt n))
unfolding itr_set_handler
itr_set_handler_lem idt itr type cs handler n ts cs' =
    (ground arith, ground arith, ground arith, ground arith)
