-- ===== src/Kernel/Sched/Ticks.antt =====
-- The tick, for the tasks that sleep.
use n00b_os.Prelude.{
  ℕ, ◌-◌, ◌<◌, ◌≡◌, refl, sym, ap, ◌∙◌, ◌≢◌, true, false, some, List, [], ◌∷◌, arith, ◌==◌,
  if◌then◌else◌, length, subst, inl,
}
use n00b_os.Kernel.Links.{has, Chain-frame}
use n00b_os.Kernel.Sched.{Tasks, set_task, Sched, wake, decrement, tick_sleeping}
use n00b_os.Kernel.Sched.Queue.{Sleepers, sleeps, IsQueue, IsQueue-frame}
use n00b_os.Kernel.Sched.RunRing.{nexts, previouses, RunRing}
use n00b_os.Kernel.Sched.Wake.{due, asleep, awakened, ticked, Anchored, Woken, unchanged, wake_lem}

-- the write of `-- sleeping_task->remaining_ticks`
abbrev pub count_down : Tasks → ℕ → Tasks
count_down tasks a =
    set_task tasks a (record (tasks a) { remaining_ticks = decrement (tasks a).remaining_ticks })

pub not_due : (a d : ℕ) (xs : Sleepers) → due ((a, d) ∷ xs) ≡ [] → d ≢ 0
not_due a d xs h e = ground (arith, h, e)

pub count_down-RunRing :
    (tasks : Tasks) (a p : ℕ) (rs : List ℕ) → RunRing tasks p rs → RunRing (count_down tasks a) p rs
count_down-RunRing tasks a p rs r = record {
  chain =
      Chain-frame (nexts tasks) (previouses tasks) (nexts (count_down tasks a))
        (previouses (count_down tasks a)) p p rs (λ b i. ground arith) (λ b i. ground arith)
        r.chain;
  apart = r.apart;
  distinct = r.distinct;
}

pub count_down-IsQueue :
    (tasks : Tasks) (a d p : ℕ) (xs : Sleepers)
    → IsQueue tasks p ((a, d) ∷ xs)
    → d ≢ 0
    → IsQueue (count_down tasks a) a ((a, d - 1) ∷ xs)
count_down-IsQueue tasks a d p xs q late = (
  refl,
  q.1,
  ground (arith, q.2, q.3),
  omega (arith, q.3),
  q.4,
  subst (λ n. IsQueue (count_down tasks a) n xs) (ground arith)
      (IsQueue-frame tasks (count_down tasks a) (tasks a).next xs (λ b i. ground (arith, q.4)) q.5),
)

pub tick_sleeping_lem :
    (fuel : ℕ) (s : Sched) (p : ℕ) (rs : List ℕ) (xs : Sleepers)
    → Anchored s p
    → RunRing s.tasks p rs
    → IsQueue s.tasks s.sleeping_task xs
    → ((b : ℕ) → has b (p ∷ rs) ≡ true → sleeps b xs ≡ false)
    → due xs ≡ []
    → length xs < fuel
    → (s' : Sched) × (tick_sleeping fuel s ≡ some s')
      × Woken s s' p (awakened (due (ticked xs)) rs) xs (asleep (ticked xs))
unfolding tick_sleeping
tick_sleeping_lem fuel s p rs [] anchored r q none_both positive lt =
    (s, ground (arith, q), unchanged s p rs [] r q)
tick_sleeping_lem fuel s p rs ((a, d) ∷ xs) anchored r q none_both positive lt =
    let s1 = record s { tasks = count_down s.tasks a } in
    let queue1 = count_down-IsQueue s.tasks a d s.sleeping_task xs q (not_due a d xs positive) in
    let w =
      wake_lem fuel s1 p rs ((a, d - 1) ∷ xs) anchored (count_down-RunRing s.tasks a p rs r)
        (subst (λ n. IsQueue s1.tasks n ((a, d - 1) ∷ xs)) (sym q.0) queue1)
        (λ b i. ground (arith, none_both b)) lt in
    let counted : ℕ → Sched = λ t. record s { tasks = count_down s.tasks t } in
    let same : counted s.sleeping_task ≡ s1 = ap counted q.0 in
    (
      w.0,
      subst (λ t. (if s.sleeping_task == 0 then some s else wake fuel t) ≡ some w.0) (sym same)
          (ground (arith, w.1, q.0, q.1)),
      record {
        undisturbed = record {
          current_task = w.2.undisturbed.current_task;
          doomed_task = w.2.undisturbed.doomed_task;
          priority = λ b. w.2.undisturbed.priority b ∙ ground arith;
        };
        switched_task = w.2.switched_task;
        switching = w.2.switching;
        remaining_ticks = λ b i. w.2.remaining_ticks b (ground arith) ∙ ground arith;
        ring = w.2.ring;
        queue = w.2.queue;
      },
    )

-- `rs` run behind the current task, and `xs` sleep
pub record Awake (s s' : Sched) (rs : List ℕ) (xs : Sleepers) : Type 0 where
  pub current : s'.current_task ≡ s.current_task
  pub ring : RunRing s'.tasks s.current_task rs
  pub queue : IsQueue s'.tasks s'.sleeping_task xs

-- While a task runs and no sleeper is overdue, a tick takes one from what the first sleeper sleeps, and every sleeper whose time
-- has then come leaves the sleepers for the ring of the tasks that run; the loop ends.
pub tick_sleeping-Awake :
    (fuel : ℕ) (s : Sched) (rs : List ℕ) (xs : Sleepers)
    → s.current_task ≢ 0
    → RunRing s.tasks s.current_task rs
    → IsQueue s.tasks s.sleeping_task xs
    → ((b : ℕ) → has b (s.current_task ∷ rs) ≡ true → sleeps b xs ≡ false)
    → due xs ≡ []
    → length xs < fuel
    → (s' : Sched) × (tick_sleeping fuel s ≡ some s')
      × Awake s s' (awakened (due (ticked xs)) rs) (asleep (ticked xs))
tick_sleeping-Awake fuel s rs xs nz r q none_both positive lt =
    let (s', ticks, w) =
      tick_sleeping_lem fuel s s.current_task rs xs (nz, inl refl) r q none_both positive lt in
    (s', ticks, record { current = w.undisturbed.current_task; ring = w.ring; queue = w.queue })
