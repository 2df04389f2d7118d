-- ===== src/Kernel/Sched/Switch.antt =====
-- The switch from the current task to another.
use n00b_os.Prelude.{ℕ, ◌≡◌, ◌≢◌, true, arith}
use n00b_os.Kernel.Sched.{Sched, sched_switch_next_task}

-- A switch between two tasks makes the other one current, with its page directory, its stack and a
-- new quantum; the switch back to the first gives back the stack that it had.
pub switch_back :
    (s : Sched) (ss esp ss' esp' : ℕ)
    → s.switching ≡ true
    → s.current_task ≢ 0
    → s.switched_task ≢ 0
    → s.switched_task ≢ s.current_task
    → let (s1, page_dir, ss1, esp1) = sched_switch_next_task s ss esp in
      let (s2, page_dir2, ss2, esp2) =
        sched_switch_next_task (record s1 { switched_task = s.current_task }) ss' esp' in
      (s1.current_task ≡ s.switched_task)
      × (page_dir ≡ (s.tasks s.switched_task).page_dir)
      × (ss1 ≡ (s.tasks s.switched_task).ss)
      × (esp1 ≡ (s.tasks s.switched_task).esp)
      × ((s1.tasks s.switched_task).remaining_ticks ≡ (s.tasks s.switched_task).priority)
      × (s2.current_task ≡ s.current_task)
      × (page_dir2 ≡ (s.tasks s.current_task).page_dir)
      × (ss2 ≡ ss)
      × (esp2 ≡ esp)
unfolding sched_switch_next_task
switch_back s ss esp ss' esp' on c n ne = (
  ground (arith, on),
  ground (arith, on),
  ground (arith, on),
  ground (arith, on),
  ground (arith, on),
  ground (arith, on),
  ground (arith, on),
  ground (arith, on),
  ground (arith, on),
)
