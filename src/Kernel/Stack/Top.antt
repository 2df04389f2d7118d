-- ===== src/Kernel/Stack/Top.antt =====
-- What stands at the top of a new stack.
use n00b_os.Prelude.{ℕ, ◌+◌, ◌-◌, ◌≡◌, ◌≢◌, [], some, arith, Option-cases, Bool-cases, inl, inr}
use n00b_os.Kernel.PageAllocator.{Pages}
use n00b_os.Kernel.Stack.{Stacks, mm_alloc_stack, alloc_pages, take_bit, map_pages, stack_top_of}

-- the lowest address of the stack with number `n`
abbrev pub base_of : ℕ → ℕ → ℕ
base_of stacks_start n = stack_top_of stacks_start n - 0x4000

-- A new stack is one of those below `stacks_start`, and the address of the process control block
-- stands above its first stack pointer.
pub mm_alloc_stack-words :
    (info : Stacks) (s : Pages) (new_pcb : ℕ) {sp : ℕ} {info' : Stacks} {s' : Pages}
    → mm_alloc_stack info s new_pcb ≡ some (sp, info', s')
    → sp ≢ 0
    → (n : ℕ) × (sp ≡ base_of info.stacks_start n + 0x3FF0)
      × (info'.words (base_of info.stacks_start n + 0x3FF8) ≡ new_pcb)
unfolding mm_alloc_stack
mm_alloc_stack-words info s new_pcb {sp} {info'} {s'} e nz =
    elim (Option-cases (alloc_pages 4 [] s).0) [
      | inl missing ↦ absurd (ground (arith, missing))
      | inr (pages, got) ↦ elim (Option-cases (take_bit info.stacks_bitmaps 0)) [
        | inl full ↦ absurd (ground (arith, got, full))
        | inr (taken, bit) ↦
            elim (Bool-cases
              (map_pages pages (stack_top_of info.stacks_start taken.0) (alloc_pages 4 [] s).1).0) [
                | inl mapped ↦
                    (taken.0, ground (arith, got, bit, mapped), ground (arith, got, bit, mapped))
                | inr unmapped ↦ absurd (ground (arith, got, bit, unmapped))
              ]
      ]
    ]
