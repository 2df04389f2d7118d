-- ===== src/Kernel/Interrupts.antt =====
-- kernel/src/arch/i386/interrupt.c: the handlers of the processor's exceptions, each of which panics; with
-- `itr_set_handler` of interrupt_as.S beside it, and kernel/src/arch/i386/pit.c.
pub mod Gates
use n00b_os.Prelude.{ℕ, ◌+◌, ◌*◌, ◌/◌, ◌%◌, ◌^◌, List, [], ◌∷◌, ◌==◌, if◌then◌else◌}

-- the two words of each gate of the interrupt descriptor table
abbrev pub Idt : Type 0
Idt = ℕ → ℕ × ℕ

-- `and` and `or` of bits that do not meet are written as sums.
unfoldable pub itr_set_handler : Idt → ℕ → ℕ → ℕ → ℕ → Idt
itr_set_handler idt itr type cs handler n =
    if n == itr
    then (cs * 2 ^ 16 + handler % 2 ^ 16, handler / 2 ^ 16 * 2 ^ 16 + type * 2 ^ 8)
    else idt n

-- the handlers of the file
pub data Handler : Type 0 where
  de_handler : Handler
  nmi_handler : Handler
  of_handler : Handler
  df_handler : Handler
  ts_handler : Handler
  np_handler : Handler
  ss_handler : Handler
  gp_handler : Handler
  pf_handler : Handler
  mf_handler : Handler
  ac_handler : Handler
  mc_handler : Handler
  xm_handler : Handler

-- the calls of `itr_set_handler`, first to last
abbrev pub initial_handlers : List (ℕ × Handler)
initial_handlers =
    (0, de_handler)
    ∷ (2, nmi_handler)
    ∷ (4, of_handler)
    ∷ (8, df_handler)
    ∷ (10, ts_handler)
    ∷ (11, np_handler)
    ∷ (12, ss_handler)
    ∷ (13, gp_handler)
    ∷ (14, pf_handler)
    ∷ (16, mf_handler)
    ∷ (17, ac_handler)
    ∷ (18, mc_handler)
    ∷ (19, xm_handler)
    ∷ []

set_all : (Handler → ℕ) → List (ℕ × Handler) → Idt → Idt
unfolding itr_set_handler
set_all address [] idt = idt
set_all address (h ∷ hs) idt = set_all address hs (itr_set_handler idt h.0 0x8E 8 (address h.1))

-- `address` is that of each handler's code.
pub itr_set_initial_handlers : (Handler → ℕ) → Idt → Idt
unfolding set_all
itr_set_initial_handlers address idt = set_all address initial_handlers idt

-- what `pit_configure` sends: ports and bytes, in order
pub pit_configure : ℕ → ℕ → ℕ → List (ℕ × ℕ)
pit_configure channel mode reload =
    (0x43, (channel * 2 ^ 6 + mode * 2 + 3 * 2 ^ 4) % 2 ^ 8)
    ∷ (0x40 + channel, reload % 2 ^ 8)
    ∷ (0x40 + channel, reload / 2 ^ 8 % 2 ^ 8)
    ∷ []
