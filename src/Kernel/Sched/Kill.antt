-- ===== src/Kernel/Sched/Kill.antt =====
-- `sched_kill_task` and `cleanup_doomed_tasks`: how a task ends.
use n00b_os.Prelude.{
  ℕ, zero, suc, ◌<◌, ◌≡◌, refl, sym, ap, ◌≢◌, true, some, List, [], ◌∷◌, arith, length, subst,
}
use n00b_os.Kernel.Links.{has, ◌∉◌}
use n00b_os.Kernel.Sched.{
  Task, Tasks, Sched, doomed_from, remove_from_schedule_ring, sched_kill_task,
}
use n00b_os.Kernel.Sched.RunRing.{
  RunRing, Runs, remove_from_schedule_ring-Runs, remove_from_schedule_ring-frame,
}
use n00b_os.Kernel.Sched.Park.{
  Runs-frame, removed-doomed_task, removed-priority, removed-sleeping_task, removed-switching,
}

-- the tasks that are to be freed
abbrev pub Doomed : Tasks → ℕ → List ℕ → Type 0
Doomed tasks p [] = p ≡ 0
Doomed tasks p (x ∷ xs) = (p ≡ x) × (x ≢ 0) × Doomed tasks (tasks x).next xs

pub Doomed-frame :
    (tasks tasks' : Tasks) (p : ℕ) (xs : List ℕ)
    → ((a : ℕ) → has a xs ≡ true → tasks' a ≡ tasks a)
    → Doomed tasks p xs
    → Doomed tasks' p xs
Doomed-frame tasks tasks' p [] same h = h
Doomed-frame tasks tasks' p (x ∷ xs) same h = (
  h.0,
  h.1,
  subst (λ n. Doomed tasks' n xs) (sym (ap (λ t. Task.next t) (same x (ground arith))))
      (Doomed-frame tasks tasks' (tasks x).next xs (λ b i. same b (ground arith)) h.2),
)

-- The loop of `cleanup_doomed_tasks` frees each doomed task and ends.
pub doomed_from_lem :
    (fuel : ℕ) (tasks : Tasks) (p : ℕ) (xs : List ℕ)
    → Doomed tasks p xs
    → length xs < fuel
    → doomed_from fuel tasks p ≡ some xs
unfolding doomed_from
doomed_from_lem zero tasks p xs h lt = absurd (omega arith)
doomed_from_lem (suc fuel) tasks p [] h lt = ground arith
doomed_from_lem (suc fuel) tasks p (x ∷ xs) h lt =
    let ih = doomed_from_lem fuel tasks (tasks x).next xs h.2 (omega arith) in
    subst (λ y. doomed_from (suc fuel) tasks y ≡ some (x ∷ xs)) (sym h.0) (ground (arith, ih, h.1))

-- `sched_kill_task` takes the current task out of the ring and makes it the first of those to be freed.
pub sched_kill_task-Doomed :
    (s : Sched) {rs : List ℕ} (ds : List ℕ)
    → RunRing s.tasks s.current_task rs
    → Doomed s.tasks s.doomed_task ds
    → ((a : ℕ) → has a (s.current_task ∷ rs) ≡ true → a ∉ ds)
    → s.current_task ≢ 0
    → Runs (sched_kill_task s).tasks (sched_kill_task s).switched_task rs
      × Doomed (sched_kill_task s).tasks (sched_kill_task s).doomed_task (s.current_task ∷ ds)
unfolding sched_kill_task
sched_kill_task-Doomed s {rs} ds r d apart nz =
    let s1 = remove_from_schedule_ring (record s { switching = true }) in
    let s' = sched_kill_task s in
    let frame : (a : ℕ) → a ∉ (s.current_task ∷ rs) → s1.tasks a ≡ s.tasks a =
      λ a o. remove_from_schedule_ring-frame (record s { switching = true }) rs a r o in
    let next_doomed : s1.doomed_task ≡ s.doomed_task =
      removed-doomed_task (record s { switching = true }) in
    (
      Runs-frame s1.tasks s'.tasks s1.switched_task rs (λ a i. ground (arith, r.apart))
          (remove_from_schedule_ring-Runs (record s { switching = true }) rs r),
      (
        refl,
        nz,
        subst (λ n. Doomed s'.tasks n ds) (ground (arith, next_doomed))
            (Doomed-frame s.tasks s'.tasks s.doomed_task ds
              (λ a i. ground (arith, frame a, apart a)) d),
      ),
    )

pub Doomed-null : (tasks : Tasks) (p : ℕ) (xs : List ℕ) → Doomed tasks p xs → 0 ∉ xs
Doomed-null tasks p [] h = refl
Doomed-null tasks p (x ∷ xs) h = ground (arith, h.1, Doomed-null tasks (tasks x).next xs h.2)

-- The sleeping tasks are left alone, and the priorities.
pub sched_kill_task-frame :
    (s : Sched) {rs : List ℕ} (a : ℕ)
    → RunRing s.tasks s.current_task rs
    → a ∉ (s.current_task ∷ rs)
    → (sched_kill_task s).tasks a ≡ s.tasks a
unfolding sched_kill_task
sched_kill_task-frame s {rs} a r out =
    ground (arith, remove_from_schedule_ring-frame (record s { switching = true }) rs a r out)

pub sched_kill_task-priority :
    (s : Sched) (a : ℕ) → ((sched_kill_task s).tasks a).priority ≡ (s.tasks a).priority
unfolding sched_kill_task
sched_kill_task-priority s a = ground (arith, removed-priority (record s { switching = true }) a)

pub sched_kill_task-sleeping_task :
    (s : Sched) → (sched_kill_task s).sleeping_task ≡ s.sleeping_task
unfolding sched_kill_task
sched_kill_task-sleeping_task s = removed-sleeping_task (record s { switching = true })

pub sched_kill_task-switching : (s : Sched) → (sched_kill_task s).switching ≡ true
unfolding sched_kill_task
sched_kill_task-switching s = removed-switching (record s { switching = true })
