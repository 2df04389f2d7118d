-- ===== src/Kernel/Process/Tests.antt =====
-- The stack of `Kernel.Stack.Sample`.
use n00b_os.Prelude.{◌≡◌, arith}
use n00b_os.Kernel.Stack.Sample.{four_pages, one_stack, made, made_lem, made-sp}
use n00b_os.Kernel.Process.{current_process_control_block}
use n00b_os.Kernel.Process.Current.{mm_alloc_stack-current}

mm_alloc_stack-current_example : current_process_control_block made.1.words 0xFFBFB000 ≡ 77
mm_alloc_stack-current_example =
    mm_alloc_stack-current one_stack four_pages 77 0xFFBFB000 made_lem (omega arith)
      (omega (arith, made-sp)) (omega (arith, made-sp)) (omega (arith, made-sp))
