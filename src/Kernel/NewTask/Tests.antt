-- ===== src/Kernel/NewTask/Tests.antt =====
-- A task that runs the function at 5000 with 6 as its argument.
use n00b_os.Prelude.{ℕ, ◌≡◌, some, false, arith}
use n00b_os.Libk.Allocator.Bump.{bump}
use n00b_os.Kernel.Stack.Sample.{four_pages, one_stack, made, made_lem, made-sp}
use n00b_os.Kernel.NewTask.{Machine, NewTask, put_on_stack}
use n00b_os.Kernel.NewTask.Frame.{resume, Begins, put_on_stack-Begins}

abbrev machine : Machine bump
machine = record {
  sched = record {
    tasks = λ a. record {
      next = 0;
      previous = 0;
      remaining_ticks = 0;
      priority = 0;
      page_dir = 0;
      ss = 0;
      esp = 0;
    };
    current_task = 0;
    switching = false;
    switched_task = 0;
    sleeping_task = 0;
    doomed_task = 0;
    idle_task = 0;
  };
  next_tid = 1;
  pcbs = λ a. record { tgid = 1; tid = 1; priority = 10; mm_info = 8; vfs_info = 9 };
  mm_infos = λ a. record { page_dir = 0x2000; kernel_info = 3 };
  stacks = one_stack;
  pages = four_pages;
  heap = 100000;
}

abbrev thread : NewTask bump
thread = record { func = 5000; argument = 6; priority = 10; tid = 2; new_process = false }

put_on_stack-Begins_example :
    (task : ℕ) × (m' : Machine bump) × (put_on_stack bump 9000 thread 77 machine ≡ some (task, m'))
    × Begins m'.stacks.words (resume m'.stacks.words (m'.sched.tasks task).esp) 5000 6 9000
put_on_stack-Begins_example =
    put_on_stack-Begins bump 9000 77 thread machine made.0 made.1 made.2 made_lem
      (omega (arith, made-sp)) (omega arith) (omega arith)
