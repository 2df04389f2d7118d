-- ===== src/Kernel/Sched.antt =====
-- kernel/src/arch/i386/sched/scheduler.c: the ring of tasks that run, the list of tasks that sleep,
-- and the switch between tasks. A task is known by its address, 0 for NULL. Interrupts are off in
-- each function here but `nexttid`, which turns them off itself.
pub mod Queue
pub mod RunRing
pub mod Park
pub mod Kill
pub mod Wake
pub mod Ticks
pub mod Switch
pub mod Plan
pub mod Entry
mod Tests
use n00b_os.Prelude.{
  ℕ, zero, suc, ◌+◌, ◌-◌, ◌%◌, ◌^◌, Bool, true, false, not, ◌&&◌, Option, none, some, List, [], ◌∷◌,
  ltb, ◌==◌, if◌then◌else◌,
}
use mathlib.Core.Option

-- `struct task` with its `machine_state_t`, and what the scheduler reads of its `pcb`
pub record Task : Type 0 where
  pub next : ℕ
  pub previous : ℕ
  pub remaining_ticks : ℕ
  pub priority : ℕ
  pub page_dir : ℕ
  pub ss : ℕ
  pub esp : ℕ

abbrev pub Tasks : Type 0
Tasks = ℕ → Task

abbrev pub set_task : Tasks → ℕ → Task → Tasks
set_task tasks a t b = if b == a then t else tasks b

-- the file's variables, with the tasks in memory
pub record Sched : Type 0 where
  pub tasks : Tasks
  pub current_task : ℕ
  pub switching : Bool
  pub switched_task : ℕ
  pub sleeping_task : ℕ
  pub doomed_task : ℕ
  pub idle_task : ℕ

-- `next` is the static variable; the new value and the result
pub nexttid : ℕ → ℕ × ℕ
nexttid next = let result = (next + 1) % 2 ^ 32 in (result, result)

pub save_state : Sched → ℕ → ℕ → Sched
save_state s ss esp =
    let a = if s.current_task == 0 then s.idle_task else s.current_task in
    record s { tasks = set_task s.tasks a (record (s.tasks a) { ss = ss; esp = esp }) }

-- the new state, the page directory, and the out values of `ss` and `esp`
pub sched_switch_next_task : Sched → ℕ → ℕ → Sched × ℕ × ℕ × ℕ
unfolding save_state
sched_switch_next_task s ss esp =
    let saved = save_state s ss esp in
    let next = saved.tasks saved.switched_task in
    let idle = saved.tasks saved.idle_task in
    if not s.switching
    then (
      s,
      (s.tasks (if s.current_task == 0 then s.idle_task else s.current_task)).page_dir,
      ss,
      esp,
    )
    else if s.switched_task == 0
    then (record saved { current_task = 0 }, idle.page_dir, idle.ss, idle.esp)
    else (
      record saved {
        current_task = saved.switched_task;
        tasks =
            set_task saved.tasks saved.switched_task
              (record next { remaining_ticks = next.priority });
      },
      next.page_dir,
      next.ss,
      next.esp,
    )

-- the loop of `cleanup_doomed_tasks`: the tasks whose stack and memory are freed, in order
pub doomed_from : ℕ → Tasks → ℕ → Option (List ℕ)
doomed_from zero tasks task = none
doomed_from (suc fuel) tasks task =
    let rest = doomed_from fuel tasks (tasks task).next in
    if task == 0 then some [] else Option.map (λ freed. task ∷ freed) rest

-- `task` put behind `anchor`
pub link_after : Tasks → ℕ → ℕ → Tasks
link_after tasks anchor task =
    let after = (tasks anchor).next in
    let t1 = set_task tasks task (record (tasks task) { next = after; previous = anchor }) in
    let t2 = set_task t1 after (record (t1 after) { previous = task }) in
    set_task t2 anchor (record (t2 anchor) { next = task })

pub put_in_schedule_ring : Sched → ℕ → Sched
unfolding link_after
put_in_schedule_ring s task =
    if not (s.current_task == 0)
    then record s { tasks = link_after s.tasks s.current_task task }
    else if not (s.switched_task == 0)
    then record s { tasks = link_after s.tasks s.switched_task task }
    else record s {
      tasks = set_task s.tasks task (record (s.tasks task) { next = task; previous = task });
      switched_task = task;
      switching = true;
    }

-- the loop of `sched_ms_tick` that wakes tasks
pub wake : ℕ → Sched → Option Sched
unfolding put_in_schedule_ring
wake zero s = none
wake (suc fuel) s =
    let next_sleeping = (s.tasks s.sleeping_task).next in
    let rest =
      wake fuel
        (record (put_in_schedule_ring s s.sleeping_task) { sleeping_task = next_sleeping }) in
    if not (s.sleeping_task == 0) && (s.tasks s.sleeping_task).remaining_ticks == 0
    then rest
    else some s

abbrev decrement : ℕ → ℕ
decrement n = (n + 2 ^ 32 - 1) % 2 ^ 32

-- the part of `sched_ms_tick` about the sleeping tasks
pub tick_sleeping : ℕ → Sched → Option Sched
unfolding wake
tick_sleeping fuel s =
    let a = s.sleeping_task in
    let t = s.tasks a in
    let counted = record s {
      tasks = set_task s.tasks a (record t { remaining_ticks = decrement t.remaining_ticks });
    } in
    if a == 0 then some s else wake fuel counted

-- and about the current one
pub tick_current : Sched → Sched
tick_current s =
    let a = s.current_task in
    let t = s.tasks a in
    let left = decrement t.remaining_ticks in
    let tasks = set_task s.tasks a (record t { remaining_ticks = left }) in
    if a == 0
    then s
    else if left == 0
    then record s { tasks = tasks; switched_task = t.next; switching = true }
    else record s { tasks = tasks; switching = false }

-- with the tasks that are freed
pub sched_ms_tick : ℕ → Sched → Option (List ℕ × Sched)
unfolding doomed_from tick_sleeping tick_current
sched_ms_tick fuel s = elim (doomed_from fuel s.tasks s.doomed_task) [
  | none ↦ none
  | some freed ↦
      Option.map (λ awake. (freed, tick_current awake))
        (tick_sleeping fuel (record s { doomed_task = 0 }))
]

-- The new state; the task that is removed is `current_task`.
pub remove_from_schedule_ring : Sched → Sched
remove_from_schedule_ring s =
    let removed = s.current_task in
    let t = s.tasks removed in
    let t1 = set_task s.tasks t.previous (record (s.tasks t.previous) { next = t.next }) in
    let t2 = set_task t1 t.next (record (t1 t.next) { previous = t.previous }) in
    if removed == t.next
    then record s { switched_task = 0 }
    else record s { tasks = t2; switched_task = t.next }

-- the place of a sleeper among the others
pub record Place : Type 0 where
  pub previous : ℕ
  pub t : ℕ
  pub remaining : ℕ

-- the `for` loop of `sched_park_task`
pub find_place : ℕ → Tasks → Place → Option Place
find_place zero tasks p = none
find_place (suc fuel) tasks p =
    let d = (tasks p.t).remaining_ticks in
    let rest =
      find_place fuel tasks
        (record { previous = p.t; t = (tasks p.t).next; remaining = p.remaining - d }) in
    if not (p.t == 0) && ltb d p.remaining then rest else some p

-- `going_to_bed` put between `previous` and `t`
pub bed : Tasks → ℕ → Place → Tasks
bed tasks going p =
    let t1 =
      set_task tasks going (record (tasks going) { remaining_ticks = p.remaining; next = p.t }) in
    let t2 =
      if p.previous == 0
      then t1
      else set_task t1 p.previous (record (t1 p.previous) { next = going }) in
    if p.t == 0
    then t2
    else set_task t2 p.t (record (t2 p.t) {
      remaining_ticks = ((t2 p.t).remaining_ticks + 2 ^ 32 - p.remaining) % 2 ^ 32;
    })

pub sched_park_task : ℕ → Sched → ℕ → Option Sched
unfolding find_place bed remove_from_schedule_ring
sched_park_task fuel s ms =
    let s1 = record s { switching = true } in
    let going = s.current_task in
    let s2 = remove_from_schedule_ring s1 in
    if ms == 0
    then some (record s1 { switched_task = (s.tasks s.current_task).next })
    else Option.map
        (λ p. record s2 {
          tasks = bed s2.tasks going p;
          sleeping_task = if p.previous == 0 then going else s2.sleeping_task;
        })
        (find_place fuel s2.tasks (record { previous = 0; t = s2.sleeping_task; remaining = ms }))

pub sched_kill_task : Sched → Sched
unfolding remove_from_schedule_ring
sched_kill_task s =
    let dead = s.current_task in
    let s1 = remove_from_schedule_ring (record s { switching = true }) in
    record s1 {
      tasks = set_task s1.tasks dead (record (s1.tasks dead) { next = s1.doomed_task });
      doomed_task = dead;
    }
