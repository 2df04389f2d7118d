-- ===== src/Kernel/Sched/Park.antt =====
-- `sched_park_task`: how the current task goes to sleep.
use n00b_os.Prelude.{
  ℕ, ◌+◌, ◌^◌, ◌<◌, ◌≡◌, refl, sym, ap, ◌∙◌, ◌≢◌, true, false, some, List, [], ◌∷◌, arith, ◌==◌,
  if◌then◌else◌, length, subst,
}
use n00b_os.Kernel.Links.{has, ◌∉◌, Ring, Chain-frame}
use n00b_os.Kernel.Sched.{
  Task, Tasks, Place, Sched, bed, remove_from_schedule_ring, sched_park_task,
}
use n00b_os.Kernel.Sched.Queue.{
  Sleepers, sleeps, IsQueue, IsQueue-frame, insert_sleeper, insert_by_time, wake_times,
  wake_times-insert_sleeper, first, put_to_bed,
}
use n00b_os.Kernel.Sched.RunRing.{
  nexts, previouses, RunRing, Runs, remove_from_schedule_ring-Runs, remove_from_schedule_ring-frame,
}

-- a ring of tasks that are left alone stays a ring
pub Runs-frame :
    (tasks tasks' : Tasks) (p : ℕ) (xs : List ℕ)
    → ((a : ℕ) → has a xs ≡ true → tasks' a ≡ tasks a)
    → Runs tasks p xs
    → Runs tasks' p xs
Runs-frame tasks tasks' p [] same h = h
Runs-frame tasks tasks' p (x ∷ xs) same h = (
  h.0,
  record {
    chain =
        Chain-frame (nexts tasks) (previouses tasks) (nexts tasks') (previouses tasks') x x xs
          (λ a i. ap (λ t. Task.next t) (same a i)) (λ a i. ap (λ t. Task.previous t) (same a i))
          (Ring.chain h.1);
    apart = Ring.apart h.1;
    distinct = Ring.distinct h.1;
  },
)

-- the current task runs with `rs`, and `xs` sleep
pub record Scheduled (s : Sched) (rs : List ℕ) (xs : Sleepers) : Type 0 where
  pub ring : RunRing s.tasks s.current_task rs
  pub queue : IsQueue s.tasks s.sleeping_task xs
  pub none_both : (a : ℕ) → has a (s.current_task ∷ rs) ≡ true → sleeps a xs ≡ false
  pub no_null : 0 ∉ (s.current_task ∷ rs)

-- what it leaves when it sleeps
pub record Parked (s s' : Sched) (ms : ℕ) (rs : List ℕ) (xs : Sleepers) : Type 0 where
  pub sleepers : Sleepers
  pub queue : IsQueue s'.tasks s'.sleeping_task sleepers
  pub times :
      (now : ℕ)
      → wake_times now sleepers ≡ insert_by_time s.current_task (now + ms) (wake_times now xs)
  pub runs : Runs s'.tasks s'.switched_task rs
  pub switching : s'.switching ≡ true

null_awake : (s : Sched) (xs : Sleepers) → IsQueue s.tasks s.sleeping_task xs → sleeps 0 xs ≡ false
null_awake s [] q = refl
null_awake s ((a, d) ∷ xs) q =
    ground (arith, null_awake (record s { sleeping_task = (s.tasks a).next }) xs q.5, q.1)

pub removed-doomed_task : (s : Sched) → (remove_from_schedule_ring s).doomed_task ≡ s.doomed_task
unfolding remove_from_schedule_ring
removed-doomed_task s = ground arith

pub removed-sleeping_task :
    (s : Sched) → (remove_from_schedule_ring s).sleeping_task ≡ s.sleeping_task
unfolding remove_from_schedule_ring
removed-sleeping_task s = ground arith

pub removed-switching : (s : Sched) → (remove_from_schedule_ring s).switching ≡ s.switching
unfolding remove_from_schedule_ring
removed-switching s = ground arith

pub removed-priority :
    (s : Sched) (a : ℕ) → ((remove_from_schedule_ring s).tasks a).priority ≡ (s.tasks a).priority
unfolding remove_from_schedule_ring
removed-priority s a = ground arith

bed-priority :
    (tasks : Tasks) (going : ℕ) (p : Place) (a : ℕ)
    → (bed tasks going p a).priority ≡ (tasks a).priority
unfolding bed
bed-priority tasks going p a = ground arith

-- what `sched_park_task` leaves, with the place where the task sleeps
pub record LaidDown (s s' : Sched) (ms : ℕ) (rs : List ℕ) (xs : Sleepers) : Type 0 where
  pub queue : IsQueue s'.tasks s'.sleeping_task (insert_sleeper s.current_task ms xs)
  pub runs : Runs s'.tasks s'.switched_task rs
  pub switching : s'.switching ≡ true
  pub priority : (a : ℕ) → (s'.tasks a).priority ≡ (s.tasks a).priority
  pub doomed : s'.doomed_task ≡ s.doomed_task
  pub frame :
      (a : ℕ) → a ∉ (s.current_task ∷ rs) → sleeps a xs ≡ false → a ≢ 0 → s'.tasks a ≡ s.tasks a

pub lie_down :
    (fuel : ℕ) {s : Sched} (ms : ℕ) {rs : List ℕ} {xs : Sleepers}
    → Scheduled s rs xs
    → ms ≢ 0
    → ms < 2 ^ 32
    → length xs < fuel
    → (s' : Sched) × (sched_park_task fuel s ms ≡ some s') × LaidDown s s' ms rs xs
unfolding sched_park_task
lie_down fuel {s} ms {rs} {xs} h nz b32 lt =
    let s1 = record s { switching = true } in
    let s2 = remove_from_schedule_ring s1 in
    let q2 =
      subst (λ p. IsQueue s2.tasks p xs) (sym (removed-sleeping_task s1))
        (IsQueue-frame s.tasks s2.tasks s.sleeping_task xs
          (λ a i. remove_from_schedule_ring-frame s1 rs a h.ring (ground (arith, h.none_both a)))
          h.queue) in
    let ne0 : s.current_task ≢ 0 = ground (arith, h.no_null) in
    let b =
      put_to_bed fuel s2.tasks s.current_task 0 s2.sleeping_task ms xs q2 lt ne0 ne0 b32
        (h.none_both s.current_task (ground arith)) (null_awake s xs h.queue)
        (λ n. absurd (n refl)) in
    let tasks' = bed s2.tasks s.current_task b.place in
    let s' = record s2 {
      tasks = tasks';
      sleeping_task = if b.place.previous == 0 then s.current_task else s2.sleeping_task;
    } in
    let head : first s.current_task ms xs ≡ s'.sleeping_task = ground (arith, b.start) in
    (
      s',
      ground (arith, b.found, nz),
      record {
        queue = subst (λ p. IsQueue tasks' p (insert_sleeper s.current_task ms xs)) head b.queue;
        runs =
            Runs-frame s2.tasks tasks' s2.switched_task rs
              (λ a i.
                b.frame a (h.none_both a (ground arith)) (ground (arith, h.ring.apart))
                  (ground (arith, h.no_null)))
              (remove_from_schedule_ring-Runs s1 rs h.ring);
        switching = removed-switching s1;
        priority = λ a. bed-priority s2.tasks s.current_task b.place a ∙ removed-priority s1 a;
        doomed = removed-doomed_task s1;
        frame = λ a out awake n0.
            b.frame a awake (ground arith) n0 ∙ remove_from_schedule_ring-frame s1 rs a h.ring out;
      },
    )

-- A task that parks for `ms` ticks, not 0, is taken out of the ring and put among the sleepers, each of
-- whom still wakes at its own time; the task wakes after `ms` ticks. The search for its place ends.
pub sched_park_task-Parked :
    (fuel : ℕ) {s : Sched} (ms : ℕ) {rs : List ℕ} {xs : Sleepers}
    → Scheduled s rs xs
    → ms ≢ 0
    → ms < 2 ^ 32
    → length xs < fuel
    → (s' : Sched) × (sched_park_task fuel s ms ≡ some s') × Parked s s' ms rs xs
sched_park_task-Parked fuel {s} ms {rs} {xs} h nz b32 lt =
    let (s', left, laid) = lie_down fuel ms h nz b32 lt in
    (
      s',
      left,
      record {
        sleepers = insert_sleeper s.current_task ms xs;
        queue = laid.queue;
        times = λ now. wake_times-insert_sleeper now s.current_task ms xs;
        runs = laid.runs;
        switching = laid.switching;
      },
    )
