-- ===== src/Kernel/NewTask/Frame.antt =====
-- The first run of a new thread.
use n00b_os.Prelude.{
  ℕ, zero, suc, ◌+◌, ◌-◌, ◌*◌, ◌<◌, ◌≤◌, ◌≡◌, ◌≢◌, refl, subst, ap, ◌∙◌, some, List, [], ◌∷◌,
  length, get_or, arith,
}
use n00b_os.Libk.Memory.{store}
use n00b_os.Libk.Allocator.{Allocator}
use n00b_os.Kernel.Stack.{Stacks, mm_alloc_stack}
use n00b_os.Kernel.PageAllocator.{Pages}
use n00b_os.Kernel.NewTask.{push_all, first_frame, Machine, NewTask, with_stack, put_on_stack}

push_all-outside :
    (ws : List ℕ) (sp : ℕ) (words : ℕ → ℕ) (a : ℕ)
    → sp ≤ a
    → 4 * length ws ≤ sp
    → (push_all (sp, words) ws).1 a ≡ words a
unfolding push_all
push_all-outside [] sp words a h lt = refl
push_all-outside (w ∷ ws) sp words a h lt =
    push_all-outside ws (sp - 4) (store words (sp - 4) w) a (omega arith) (omega arith)
    ∙ ground arith

pub push_all-sp :
    (ws : List ℕ) (sp : ℕ) (words : ℕ → ℕ)
    → 4 * length ws ≤ sp
    → (push_all (sp, words) ws).0 + 4 * length ws ≡ sp
unfolding push_all
push_all-sp [] sp words lt = omega arith
push_all-sp (w ∷ ws) sp words lt =
    omega (arith, push_all-sp ws (sp - 4) (store words (sp - 4) w) (omega arith))

-- each word stands below those that were pushed before it
pub push_all-word :
    (ws : List ℕ) (sp : ℕ) (words : ℕ → ℕ) (i : ℕ)
    → 4 * length ws ≤ sp
    → i < length ws
    → (push_all (sp, words) ws).1 (sp - 4 * (i + 1)) ≡ get_or ws i 0
unfolding push_all
push_all-word [] sp words i le lt = absurd (omega arith)
push_all-word (w ∷ ws) sp words zero le lt =
    push_all-outside ws (sp - 4) (store words (sp - 4) w) (sp - 4) (omega arith) (omega arith)
    ∙ ground arith
push_all-word (w ∷ ws) sp words (suc i) le lt =
    let at : sp - 4 * (suc i + 1) ≡ sp - 4 - 4 * (i + 1) = omega arith in
    ap (push_all (sp - 4, store words (sp - 4) w) ws).1 at
    ∙ push_all-word ws (sp - 4) (store words (sp - 4) w) i (omega arith) (omega arith)

-- what the processor holds after the pops and the `iret` of a switch to a task
pub record Registers : Type 0 where
  pub gs : ℕ
  pub fs : ℕ
  pub es : ℕ
  pub ds : ℕ
  pub eax : ℕ
  pub eip : ℕ
  pub cs : ℕ
  pub eflags : ℕ
  pub esp : ℕ

-- The end of `switch_task` in kernel/src/arch/i386/sched/interrupts.S: four segments, the eight words
-- of `popa` with `eax` last, and the three of `iret`.
pub resume : (ℕ → ℕ) → ℕ → Registers
resume words esp = record {
  gs = words esp;
  fs = words (esp + 4);
  es = words (esp + 8);
  ds = words (esp + 12);
  eax = words (esp + 44);
  eip = words (esp + 48);
  cs = words (esp + 52);
  eflags = words (esp + 56);
  esp = esp + 60;
}

-- a thread that begins with `func`: its argument and where it returns to stand on its stack
pub record Begins (words : ℕ → ℕ) (r : Registers) (func argument sched_exit : ℕ) : Type 0 where
  pub at_func : r.eip ≡ func
  pub in_kernel : (r.cs ≡ 0x08) × (r.ds ≡ 0x10) × (r.es ≡ 0x10) × (r.fs ≡ 0x10) × (r.gs ≡ 0x10)
  pub flags : r.eflags ≡ 0x00200286
  pub return_to : words r.esp ≡ sched_exit
  pub first_argument : words (r.esp + 4) ≡ argument

first_frame-Begins :
    (sp : ℕ) (words : ℕ → ℕ) (sched_exit func argument : ℕ)
    → 72 ≤ sp
    → let (esp, words') = push_all (sp, words) (first_frame sched_exit func argument) in
      Begins words' (resume words' esp) func argument sched_exit
unfolding resume
first_frame-Begins sp words sched_exit func argument le =
    let frame = first_frame sched_exit func argument in
    let esp = (push_all (sp, words) frame).0 in
    let words' = (push_all (sp, words) frame).1 in
    let top : esp + 72 ≡ sp = push_all-sp frame sp words le in
    let word : (i k : ℕ) → i + k ≡ 17 → words' (esp + 4 * k) ≡ get_or frame i 0 =
      λ i k e. ap words' (omega arith) ∙ push_all-word frame sp words i le (omega arith) in
    record {
      at_func = word 5 12 refl;
      in_kernel = (
        word 4 13 refl,
        word 14 3 refl,
        word 15 2 refl,
        word 16 1 refl,
        ap words' (omega arith) ∙ word 17 0 refl,
      );
      flags = word 3 14 refl;
      return_to = word 2 15 refl;
      first_argument = ap words' (omega arith) ∙ word 1 16 refl;
    }

with_stack-Begins :
    (A : Allocator) (sched_exit new_pcb : ℕ) (t : NewTask A) (m : Machine A)
    (stack : ℕ × Stacks × Pages)
    → 72 ≤ stack.0
    → let (task, m') = with_stack A sched_exit t new_pcb m stack in
      Begins m'.stacks.words
        (resume m'.stacks.words (m'.sched.tasks task).esp)
        t.func
        t.argument
        sched_exit
unfolding with_stack
with_stack-Begins A sched_exit new_pcb t m (sp, stacks, pages) le =
    let made = push_all (sp, stacks.words) (first_frame sched_exit t.func t.argument) in
    let task = (with_stack A sched_exit t new_pcb m (sp, stacks, pages)).0 in
    let m' = (with_stack A sched_exit t new_pcb m (sp, stacks, pages)).1 in
    let esp : made.0 ≡ (m'.sched.tasks task).esp = ground arith in
    subst (λ p. Begins made.1 (resume made.1 p) t.func t.argument sched_exit) esp
      (first_frame-Begins sp stacks.words sched_exit t.func t.argument le)

-- Where there is memory, the new task's stack is such that the switch to it begins `func` with its
-- argument, in the kernel's segments and with interrupts on, and `func` returns to `sched_exit`.
pub put_on_stack-Begins :
    (A : Allocator) (sched_exit new_pcb : ℕ) (t : NewTask A) (m : Machine A) (sp : ℕ)
    (stacks : Stacks) (pages : Pages)
    → mm_alloc_stack m.stacks m.pages new_pcb ≡ some (sp, stacks, pages)
    → 72 ≤ sp
    → (A.malloc 8 m.heap).0 ≢ 0
    → (A.malloc 20 (A.malloc 8 m.heap).1).0 ≢ 0
    → (task : ℕ) × (m' : Machine A) × (put_on_stack A sched_exit t new_pcb m ≡ some (task, m'))
      × Begins m'.stacks.words
          (resume m'.stacks.words (m'.sched.tasks task).esp)
          t.func
          t.argument
          sched_exit
unfolding put_on_stack
put_on_stack-Begins A sched_exit new_pcb t m sp stacks pages e le ms task =
    let made = with_stack A sched_exit t new_pcb m (sp, stacks, pages) in
    (
      made.0,
      made.1,
      ground (arith, e, ms, task),
      with_stack-Begins A sched_exit new_pcb t m (sp, stacks, pages) le,
    )
