-- ===== src/Kernel/NewTask.antt =====
-- kernel/src/arch/i386/sched/scheduler.c: how tasks are made, with a process control block, a stack and
-- what the switch to a task takes from that. No interrupt is taken in between.
pub mod Frame
mod Tests
use n00b_os.Prelude.{
  ℕ, ◌+◌, ◌-◌, ◌%◌, ◌^◌, Bool, true, false, ◌&&◌, Option, none, some, List, [], ◌∷◌, ◌==◌,
  if◌then◌else◌,
}
use n00b_os.Libk.Memory.{Memory, store}
use n00b_os.Libk.Allocator.{Allocator}
use n00b_os.Kernel.PageAllocator.{Pages, mm_new_page_directory}
use n00b_os.Kernel.Stack.{Stacks, mm_alloc_stack}
use n00b_os.Kernel.Process.{ProcessControlBlock, MmInfo, priority_high}
use n00b_os.Kernel.Sched.{Task, set_task, Sched, nexttid, put_in_schedule_ring}

-- `*(uint32_t*)(sp-=4) = word`, with the memory of the stacks
abbrev pub push : ℕ × (ℕ → ℕ) → ℕ → ℕ × (ℕ → ℕ)
push (sp, words) word = (sp - 4, store words (sp - 4) word)

unfoldable pub push_all : ℕ × (ℕ → ℕ) → List ℕ → ℕ × (ℕ → ℕ)
push_all stack [] = stack
push_all stack (w ∷ ws) = push_all (push stack w) ws

-- the "saved" registers of a thread that has not run; `sched_exit` is the address of that function
abbrev pub first_frame : ℕ → ℕ → ℕ → List ℕ
first_frame sched_exit func argument =
    42 ∷ argument ∷ sched_exit ∷ 0x00200286 ∷ 0x08 ∷ func ∷ 0 ∷ 0 ∷ 0 ∷ 0 ∷ 0 ∷ 0 ∷ 0 ∷ 0 ∷ 0x10
    ∷ 0x10 ∷ 0x10 ∷ 0x10 ∷ []

module _ (A : Allocator) where
  -- all that the creation of a task changes, by address where it is many
  pub record Machine : Type 0 where
    pub sched : Sched
    pub next_tid : ℕ
    pub pcbs : ℕ → ProcessControlBlock
    pub mm_infos : ℕ → MmInfo
    pub stacks : Stacks
    pub pages : Pages
    pub heap : A.State

  -- what `create_new_task` is called with
  pub record NewTask : Type 0 where
    pub func : ℕ
    pub argument : ℕ
    pub priority : ℕ
    pub tid : ℕ
    pub new_process : Bool

  -- The memory of a process of its own: the address of its `mm_info`, which is 0 for want of memory,
  -- or that of the current process.
  pub process_memory : NewTask → Machine → MmInfo → ℕ → ℕ × Machine
  process_memory t m info mm_info =
      let (new_mm_info, heap) = A.malloc 8 m.heap in
      let (page_dir, pages) = mm_new_page_directory m.pages in
      if t.new_process
      then (
        new_mm_info,
        record m {
          heap = heap;
          pages = pages;
          mm_infos = λ a.
              if a == new_mm_info
              then record { page_dir = page_dir; kernel_info = info.kernel_info }
              else m.mm_infos a;
        },
      )
      else (mm_info, m)

  -- The new task and its address, on a stack that was made for the process control block at `new_pcb`.
  pub with_stack : ℕ → NewTask → ℕ → Machine → ℕ × Stacks × Pages → ℕ × Machine
  with_stack sched_exit t new_pcb m (sp, stacks, pages) =
      let (esp, words) = push_all (sp, stacks.words) (first_frame sched_exit t.func t.argument) in
      let (new_task, heap) = A.malloc 20 (A.malloc 8 m.heap).1 in
      (
        new_task,
        record m {
          stacks = record stacks { words = words };
          pages = pages;
          heap = heap;
          sched = record m.sched {
            tasks = set_task m.sched.tasks new_task (record (m.sched.tasks new_task) {
              remaining_ticks = t.priority;
              priority = t.priority;
              page_dir = (m.mm_infos (m.pcbs new_pcb).mm_info).page_dir;
              ss = 0x10;
              esp = esp;
            });
          };
        },
      )

  -- `create_new_task` from the stack on. `none` is a panic.
  pub put_on_stack : ℕ → NewTask → ℕ → Machine → Option (ℕ × Machine)
  unfolding with_stack
  put_on_stack sched_exit t new_pcb m = elim (mm_alloc_stack m.stacks m.pages new_pcb) [
    | none ↦ none
    | some stack ↦
        if stack.0 == 0
        then none
        else if (A.malloc 8 m.heap).0 == 0
        then none
        else if (A.malloc 20 (A.malloc 8 m.heap).1).0 == 0
        then none
        else some (with_stack sched_exit t new_pcb m stack)
  ]

  -- `current` is the address of the current process control block. `vfs_info` of the new one is not
  -- set: it is what its memory held.
  pub create_new_task : ℕ → ℕ → NewTask → Machine → Option (ℕ × Machine)
  create_new_task sched_exit current t m =
      let (new_pcb, heap) = A.malloc 20 m.heap in
      let current_pcb = m.pcbs current in
      let (mm_info, m1) =
        process_memory t (record m { heap = heap }) (m.mm_infos current_pcb.mm_info)
          current_pcb.mm_info in
      let pcb = record (m.pcbs new_pcb) {
        tid = t.tid;
        priority = t.priority;
        tgid = if t.new_process then t.tid else current_pcb.tgid;
        mm_info = mm_info;
      } in
      let m2 = record m1 { pcbs = λ a. if a == new_pcb then pcb else m.pcbs a } in
      let rest = put_on_stack sched_exit t new_pcb m2 in
      if new_pcb == 0 then none else if t.new_process && (mm_info == 0) then none else rest

  -- the thread's identifier, with the new state
  pub sched_new_thread : ℕ → ℕ → ℕ → ℕ → ℕ → Machine → Option (ℕ × Machine)
  sched_new_thread sched_exit current func argument priority m =
      let (tid, next) = nexttid m.next_tid in
      elim (create_new_task sched_exit current
        (record {
          func = func;
          argument = argument;
          priority = priority;
          tid = tid;
          new_process = false;
        })
        (record m { next_tid = next })) [
          | none ↦ none
          | some (new_task, m') ↦
              some (tid, record m' { sched = put_in_schedule_ring m'.sched new_task })
        ]

  -- `idle` is the address of the idle task's function. The `previous` of the first task is not set.
  pub sched_init_tasks : ℕ → ℕ → ℕ → Machine → Option Machine
  sched_init_tasks sched_exit current idle m =
      elim (create_new_task sched_exit current
        (record {
          func = idle;
          argument = 0;
          priority = priority_high;
          tid = 0;
          new_process = true;
        })
        m) [
          | none ↦ none
          | some (idle_task, m1) ↦
              let (first_task, heap1) = A.malloc 20 m1.heap in
              let (ms, heap2) = A.malloc 8 heap1 in
              let pcb = m1.pcbs current in
              let task = record (m1.sched.tasks first_task) {
                next = first_task;
                remaining_ticks = pcb.priority;
                priority = pcb.priority;
                page_dir = (m1.mm_infos pcb.mm_info).page_dir;
              } in
              if first_task == 0
              then none
              else if ms == 0
              then none
              else some (record m1 {
                heap = heap2;
                sched = record m1.sched {
                  idle_task = idle_task;
                  current_task = first_task;
                  tasks = set_task m1.sched.tasks first_task task;
                };
              })
        ]
