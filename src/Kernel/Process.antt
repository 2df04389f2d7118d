-- ===== src/Kernel/Process.antt =====
-- kernel/src/arch/i386/sched/process.c and kernel/src/all/kernel/sched/process.c: the process control
-- block, which the stack of each thread leads to.
pub mod Current
mod Tests
use n00b_os.Prelude.{ℕ, ◌+◌, ◌-◌, ◌*◌, ◌/◌, ◌%◌, ◌^◌, List, [], ◌∷◌, ℤ, minus_one}

-- PRIORITY_LOW, PRIORITY_NORMAL and PRIORITY_HIGH
abbrev pub priority_low : ℕ
priority_low = 5

abbrev pub priority_normal : ℕ
priority_normal = 10

abbrev pub priority_high : ℕ
priority_high = 20

-- `struct process_control_block`
pub record ProcessControlBlock : Type 0 where
  pub tgid : ℕ
  pub tid : ℕ
  pub priority : ℕ
  pub mm_info : ℕ
  pub vfs_info : ℕ

-- `struct mm_info`
pub record MmInfo : Type 0 where
  pub page_dir : ℕ
  pub kernel_info : ℕ

-- `esp & 0xFFFFD000`: the bits 12 and 14 and up
abbrev mask : ℕ → ℕ
mask esp = esp / 2 ^ 14 * 2 ^ 14 + esp / 2 ^ 12 % 2 * 2 ^ 12

-- `n | 0x3FF8`, for an `n` whose bits 0 to 2 are 0: the bits 3 to 13 are set.
abbrev point : ℕ → ℕ
point n = n / 2 ^ 14 * 2 ^ 14 + 0x3FF8

pub current_process_control_block_ptr : ℕ → ℕ
current_process_control_block_ptr esp = point (mask esp)

-- `words` is the memory of the stacks.
pub current_process_control_block : (ℕ → ℕ) → ℕ → ℕ
unfolding current_process_control_block_ptr
current_process_control_block words esp = words (current_process_control_block_ptr esp)

-- `struct mm_ring_info`, what `sched_init_process_control_block` sets of it
pub record KernelInfo : Type 0 where
  pub heap_start : ℕ
  pub heap_end : ℕ
  pub stacks_start : ℕ
  pub stacks_bitmaps : List ℕ

-- The first process. The arguments are the addresses of `kernel_end`, of `boot_pagedir` and of the
-- function's static variables.
pub sched_init_process_control_block : ℕ → ℕ → ℕ → ℕ → ℕ → KernelInfo × MmInfo × ProcessControlBlock
sched_init_process_control_block kernel_end boot_pagedir kernel_info mm_info vfs_info = (
  record {
    heap_start = kernel_end;
    heap_end = kernel_end;
    stacks_start = 0xFFC00000;
    stacks_bitmaps = [];
  },
  record { page_dir = (boot_pagedir + 2 ^ 32 - 0xC0000000) % 2 ^ 32; kernel_info = kernel_info },
  record { tgid = 1; tid = 1; priority = priority_normal; mm_info = mm_info; vfs_info = vfs_info },
)

-- Creating a process is not implemented in the source.
pub process_create : ℤ
process_create = minus_one
