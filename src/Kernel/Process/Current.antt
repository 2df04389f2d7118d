-- ===== src/Kernel/Process/Current.antt =====
-- Which process control block a stack leads to.
use n00b_os.Prelude.{ℕ, ◌+◌, ◌%◌, ◌<◌, ◌≤◌, ◌≡◌, ap, ◌∙◌, some, arith}
use n00b_os.Kernel.PageAllocator.{Pages}
use n00b_os.Kernel.Stack.{Stacks, mm_alloc_stack}
use n00b_os.Kernel.Stack.Top.{base_of, mm_alloc_stack-words}
use n00b_os.Kernel.Process.{current_process_control_block_ptr, current_process_control_block}

-- the address stands in the stack whose lowest address is `base`
abbrev pub InStack : ℕ → ℕ → Type 0
InStack base esp = (base % 0x4000 ≡ 0) × (base ≤ esp) × (esp < base + 0x4000)

pub current_process_control_block_ptr_lem :
    (base esp : ℕ) → InStack base esp → current_process_control_block_ptr esp ≡ base + 0x3FF8
unfolding current_process_control_block_ptr
current_process_control_block_ptr_lem base esp h = omega arith

-- A stack that `mm_alloc_stack` returns leads to the process control block that it was made for, at
-- every stack pointer in it, if the stacks start at a multiple of their size and do not reach 0.
pub mm_alloc_stack-current :
    (info : Stacks) (s : Pages) (new_pcb esp : ℕ) {sp : ℕ} {info' : Stacks} {s' : Pages}
    → mm_alloc_stack info s new_pcb ≡ some (sp, info', s')
    → info.stacks_start % 0x4000 ≡ 0
    → 0x4000 ≤ sp
    → sp ≤ esp + 0x3FF0
    → esp < sp + 0x10
    → current_process_control_block info'.words esp ≡ new_pcb
unfolding current_process_control_block
mm_alloc_stack-current info s new_pcb esp {sp} {info'} e start big lo hi =
    let (n, at, pcb) = mm_alloc_stack-words info s new_pcb e (omega arith) in
    let base = base_of info.stacks_start n in
    let inside : InStack base esp = omega arith in
    ap (λ a. info'.words a) (current_process_control_block_ptr_lem base esp inside) ∙ pcb
