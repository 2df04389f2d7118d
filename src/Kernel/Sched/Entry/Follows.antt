-- ===== src/Kernel/Sched/Entry/Follows.antt =====
-- When the scheduler's variables follow a plan, and the switch that makes the first task current.
use n00b_os.Prelude.{
  ℕ, ◌≡◌, refl, ◌∙◌, sym, ap, ◌≢◌, true, false, List, [], ◌∷◌, arith, ◌==◌, if◌then◌else◌,
  Bool-cases, inl, inr, subst,
}
use n00b_os.Kernel.Links.{has, ◌∉◌, Ring, Chain-frame}
use n00b_os.Kernel.Sched.{Task, Tasks, Sched, save_state, sched_switch_next_task}
use n00b_os.Kernel.Sched.Queue.{Sleepers, sleeps, IsQueue}
use n00b_os.Kernel.Sched.RunRing.{nexts, previouses, Runs}
use n00b_os.Kernel.Sched.Kill.{Doomed}
use n00b_os.Kernel.Sched.Plan.{Plan, first_quantum}
use n00b_os.Kernel.Sched.Plan.Valid.{IsValid}

-- the lists of a plan in memory, `p` being the first task that runs
pub record InMemory (s : Sched) (p : ℕ) (plan : Plan) : Type 0 where
  pub runs : Runs s.tasks p plan.running
  pub queue : IsQueue s.tasks s.sleeping_task plan.sleepers
  pub doomed : Doomed s.tasks s.doomed_task plan.doomed
  pub priority : (a : ℕ) → (s.tasks a).priority ≡ plan.priority a

-- between two entries of the kernel
pub record Follows (s : Sched) (plan : Plan) : Type 0 where
  pub lists : InMemory s s.current_task plan
  pub idle : s.current_task ≡ 0 → s.switched_task ≡ 0
  pub quantum : s.current_task ≢ 0 → (s.tasks s.current_task).remaining_ticks ≡ plan.quantum

-- in an entry of the kernel, before the switch
abbrev pub leader : Sched → ℕ
leader s = if s.switching then s.switched_task else s.current_task

pub record Ready (s : Sched) (plan : Plan) : Type 0 where
  pub lists : InMemory s (leader s) plan
  pub idle : s.switching ≡ false → s.current_task ≡ 0 → s.switched_task ≡ 0
  pub starts : s.switching ≡ true → plan.quantum ≡ first_quantum plan.priority plan.running
  pub stays :
      s.switching ≡ false
      → s.current_task ≢ 0
      → (s.tasks s.current_task).remaining_ticks ≡ plan.quantum

-- The links are the same, though other fields of the tasks may not be.
pub record SameLinks (tasks tasks' : Tasks) : Type 0 where
  pub next : (a : ℕ) → nexts tasks' a ≡ nexts tasks a
  pub previous : (a : ℕ) → previouses tasks' a ≡ previouses tasks a

module _ {tasks tasks' : Tasks} (same : SameLinks tasks tasks') where
  pub RunRing-SameLinks :
      (p : ℕ) (xs : List ℕ)
      → Ring (nexts tasks) (previouses tasks) p xs
      → Ring (nexts tasks') (previouses tasks') p xs
  RunRing-SameLinks p xs r = record {
    chain =
        Chain-frame (nexts tasks) (previouses tasks) (nexts tasks') (previouses tasks') p p xs
          (λ a i. same.next a) (λ a i. same.previous a) r.chain;
    apart = r.apart;
    distinct = r.distinct;
  }

  pub Runs-SameLinks : (p : ℕ) (xs : List ℕ) → Runs tasks p xs → Runs tasks' p xs
  Runs-SameLinks p [] h = h
  Runs-SameLinks p (x ∷ xs) h = (h.0, RunRing-SameLinks x xs h.1)

  pub IsQueue-SameLinks :
      (p : ℕ) (xs : Sleepers)
      → ((a : ℕ) → sleeps a xs ≡ true → (tasks' a).remaining_ticks ≡ (tasks a).remaining_ticks)
      → IsQueue tasks p xs
      → IsQueue tasks' p xs
  IsQueue-SameLinks p [] left h = h
  IsQueue-SameLinks p ((a, d) ∷ xs) left h = (
    h.0,
    h.1,
    left a (ground arith) ∙ h.2,
    h.3,
    h.4,
    subst (λ n. IsQueue tasks' n xs) (sym (same.next a))
        (IsQueue-SameLinks (tasks a).next xs (λ b i. left b (ground arith)) h.5),
  )

  pub Doomed-SameLinks : (p : ℕ) (xs : List ℕ) → Doomed tasks p xs → Doomed tasks' p xs
  Doomed-SameLinks p [] h = h
  Doomed-SameLinks p (x ∷ xs) h = (
    h.0,
    h.1,
    subst (λ n. Doomed tasks' n xs) (sym (same.next x)) (Doomed-SameLinks (tasks x).next xs h.2),
  )

-- who runs first is not 0, or nobody runs
pub Runs-null : (tasks : Tasks) (xs : List ℕ) → Runs tasks 0 xs → 0 ∉ xs → xs ≡ []
Runs-null tasks [] h out = refl
Runs-null tasks (x ∷ xs) h out = absurd (ground (arith, h.0))

pub Runs-first : (tasks : Tasks) (p : ℕ) (xs : List ℕ) → Runs tasks p xs → p ≢ 0 → has p xs ≡ true
Runs-first tasks p [] h nz = absurd (nz h)
Runs-first tasks p (x ∷ xs) h nz = ground (arith, h.0)

pub first_quantum-priority :
    (tasks : Tasks) (priority : ℕ → ℕ) (p : ℕ) (xs : List ℕ)
    → Runs tasks p xs
    → p ≢ 0
    → first_quantum priority xs ≡ priority p
first_quantum-priority tasks priority p [] h nz = absurd (nz h)
first_quantum-priority tasks priority p (x ∷ xs) h nz = ap priority (sym h.0)

-- The first of the tasks that run does not sleep.
not_first :
    {s : Sched} (plan : Plan)
    → Ready s plan
    → IsValid plan
    → (a : ℕ) → sleeps a plan.sleepers ≡ true
    → a ≢ leader s
not_first {s} plan r v a i e = elim (Bool-cases (leader s == 0)) [
  | inl z ↦ ground (arith, v.no_null_sleeps, i, e, z)
  | inr nz ↦ ground (
    arith,
    i,
    e,
    v.awake (leader s)
        (Runs-first s.tasks (leader s) plan.running r.lists.runs (ground (arith, nz))),
  )
]

module _ (s : Sched) (ss esp : ℕ) where
  abbrev after : Sched
  after = (sched_switch_next_task s ss esp).0

  switch-SameLinks : SameLinks s.tasks after.tasks
  unfolding sched_switch_next_task save_state
  switch-SameLinks = record { next = λ a. ground arith; previous = λ a. ground arith }

  switch-current_task : after.current_task ≡ leader s
  unfolding sched_switch_next_task save_state
  switch-current_task = ground arith

  switch-switched_task : after.switched_task ≡ s.switched_task
  unfolding sched_switch_next_task save_state
  switch-switched_task = ground arith

  switch-sleeping_task : after.sleeping_task ≡ s.sleeping_task
  unfolding sched_switch_next_task save_state
  switch-sleeping_task = ground arith

  switch-doomed_task : after.doomed_task ≡ s.doomed_task
  unfolding sched_switch_next_task save_state
  switch-doomed_task = ground arith

  switch-priority : (a : ℕ) → (after.tasks a).priority ≡ (s.tasks a).priority
  unfolding sched_switch_next_task save_state
  switch-priority a = ground arith

  switch-remaining_ticks :
      (a : ℕ) → (a ≢ leader s) → (after.tasks a).remaining_ticks ≡ (s.tasks a).remaining_ticks
  unfolding sched_switch_next_task save_state
  switch-remaining_ticks a ne = ground arith

  switch_quantum :
      s.switching ≡ true
      → s.switched_task ≢ 0
      → (after.tasks s.switched_task).remaining_ticks ≡ (s.tasks s.switched_task).priority
  unfolding sched_switch_next_task save_state
  switch_quantum on nz = ground arith

  stay_quantum : s.switching ≡ false → after ≡ s
  unfolding sched_switch_next_task save_state
  stay_quantum off = ground arith

  switch-InMemory :
      (plan : Plan) → Ready s plan → IsValid plan → InMemory after after.current_task plan
  switch-InMemory plan r v = record {
    runs =
        subst (λ p. Runs after.tasks p plan.running) (sym switch-current_task)
          (Runs-SameLinks switch-SameLinks (leader s) plan.running r.lists.runs);
    queue =
        subst (λ p. IsQueue after.tasks p plan.sleepers) (sym switch-sleeping_task)
          (IsQueue-SameLinks switch-SameLinks s.sleeping_task plan.sleepers
            (λ a i. switch-remaining_ticks a (λ e. not_first plan r v a i e)) r.lists.queue);
    doomed =
        subst (λ p. Doomed after.tasks p plan.doomed) (sym switch-doomed_task)
          (Doomed-SameLinks switch-SameLinks s.doomed_task plan.doomed r.lists.doomed);
    priority = λ a. switch-priority a ∙ r.lists.priority a;
  }

  pub switch-Follows : (plan : Plan) → Ready s plan → IsValid plan → Follows after plan
  switch-Follows plan r v = elim (Bool-cases s.switching) [
    | inl on ↦
        let to : after.current_task ≡ s.switched_task = switch-current_task ∙ ground (arith, on) in
        let run =
          subst (λ p. Runs s.tasks p plan.running) (sym switch-current_task ∙ to) r.lists.runs in
        record {
          lists = switch-InMemory plan r v;
          idle = λ e. switch-switched_task ∙ sym to ∙ e;
          quantum = λ ne.
              let nz : s.switched_task ≢ 0 = λ e. ne (to ∙ e) in
              ap (λ a. Task.remaining_ticks (after.tasks a)) to
              ∙ switch_quantum on nz
              ∙ r.lists.priority s.switched_task
              ∙ sym
                  (first_quantum-priority s.tasks plan.priority s.switched_task plan.running run nz)
              ∙ sym (r.starts on);
        }
    | inr off ↦
        let same = stay_quantum off in
        record {
          lists = switch-InMemory plan r v;
          idle =
              subst (λ t. Sched.current_task t ≡ 0 → Sched.switched_task t ≡ 0) (sym same)
                (r.idle off);
          quantum =
              subst
                (λ t.
                  Sched.current_task t ≢ 0
                  → (Sched.tasks t (Sched.current_task t)).remaining_ticks ≡ plan.quantum)
                (sym same) (r.stays off);
        }
  ]
