-- ===== src/Kernel/Sched/Plan/Sleeping.antt =====
-- When a task that sleeps runs again, whatever the other tasks do.
use n00b_os.Prelude.{
  either_way, ℕ, suc, ◌+◌, ◌-◌, ◌<◌, ◌≡◌, ◌≢◌, refl, sym, ◌∙◌, subst, true, List, [], ◌∷◌, arith,
  ◌==◌, if◌then◌else◌,
}
use n00b_os.Kernel.Links.{has, ◌∉◌}
use n00b_os.Kernel.Sched.{decrement}
use n00b_os.Kernel.Sched.Queue.{Sleepers, sleeps, insert_sleeper}
use n00b_os.Kernel.Sched.Wake.{due, asleep, ticked}
use n00b_os.Kernel.Sched.Plan.{
  Plan, Event, tick, sleep, exit, time_passes, count, put_to_sleep, take_out, plan_step, plan_run,
  AllAllowed,
}
use n00b_os.Kernel.Sched.Plan.Valid.{IsValid, sleeps-insert, sleeps-ticked, has-wake_up, has-rotate}
use n00b_os.Kernel.Sched.Plan.Keeps.{plan_step-IsValid}

-- the ticks that `a` sleeps for, if it sleeps
abbrev pub time_left : ℕ → Sleepers → ℕ
time_left a [] = 0
time_left a ((b, d) ∷ xs) = if a == b then d else d + time_left a xs

-- the ticks among the events
abbrev pub ticks_in : List Event → ℕ
ticks_in [] = 0
ticks_in (tick ∷ es) = suc (ticks_in es)
ticks_in (sleep ms ∷ es) = ticks_in es
ticks_in (exit ∷ es) = ticks_in es

time_left-insert :
    (a new ms : ℕ) (xs : Sleepers)
    → a ≢ new
    → sleeps a xs ≡ true
    → time_left a (insert_sleeper new ms xs) ≡ time_left a xs
time_left-insert a new ms [] ne h = absurd (ground arith)
time_left-insert a new ms ((b, d) ∷ xs) ne h = ground (arith, time_left-insert a new (ms - d) xs ne)

-- a task with no tick left is due, any other sleeps on
due_now : (a : ℕ) (xs : Sleepers) → sleeps a xs ≡ true → time_left a xs ≡ 0 → has a (due xs) ≡ true
due_now a [] h z = h
due_now a ((b, d) ∷ xs) h z = ground (arith, due_now a xs)

time_left-asleep :
    (a : ℕ) (xs : Sleepers)
    → sleeps a xs ≡ true
    → time_left a xs ≢ 0
    → (sleeps a (asleep xs) ≡ true) × (time_left a (asleep xs) ≡ time_left a xs)
time_left-asleep a [] h nz = absurd (ground arith)
time_left-asleep a ((b, d) ∷ xs) h nz = ground (arith, time_left-asleep a xs)

time_left-ticked :
    (a : ℕ) (xs : Sleepers)
    → due xs ≡ []
    → sleeps a xs ≡ true
    → time_left a (ticked xs) + 1 ≡ time_left a xs
time_left-ticked a [] on_time h = absurd (ground arith)
time_left-ticked a ((b, d) ∷ xs) on_time h = ground arith

count-sleepers : (rs : List ℕ) (p : Plan) → (count rs p).sleepers ≡ p.sleepers
count-sleepers [] p = refl
count-sleepers (c ∷ rs) p =
    either_way (λ (p' : Plan). p'.sleepers ≡ p.sleepers) (decrement p.quantum == 0) (λ _. refl)
      (λ _. refl)

count-running : (a : ℕ) (rs : List ℕ) (p : Plan) → has a (count rs p).running ≡ has a p.running
count-running a [] p = refl
count-running a (c ∷ rs) p =
    either_way (λ (p' : Plan). has a p'.running ≡ has a p.running) (decrement p.quantum == 0)
      (λ _. has-rotate a p.running) (λ _. refl)

take_out-sleepers : (p : Plan) (rs : List ℕ) → (take_out p rs).sleepers ≡ p.sleepers
take_out-sleepers p [] = refl
take_out-sleepers p (c ∷ rs) = refl

abbrev AsLong : ℕ → ℕ → Sleepers → Type 0
AsLong a n xs = (sleeps a xs ≡ true) × (time_left a xs ≡ n)

-- `a` sleeps, for `n` more ticks
abbrev pub SleepsFor : ℕ → ℕ → Plan → Type 0
SleepsFor a n p = AsLong a n p.sleepers

put_to_sleep-SleepsFor :
    (a n ms : ℕ) (p : Plan) (rs : List ℕ)
    → (sleeps a p.sleepers ≡ true)
    → a ∉ rs
    → (time_left a p.sleepers ≡ n)
    → SleepsFor a n (put_to_sleep ms p rs)
put_to_sleep-SleepsFor a n ms p [] h out t = (h, t)
put_to_sleep-SleepsFor a n ms p (c ∷ rs) h out t =
    either_way (SleepsFor a n) (ms == 0) (λ _. (h, t))
      (λ _. (
        sleeps-insert a c ms p.sleepers ∙ ground (arith, h),
        time_left-insert a c ms p.sleepers (ground (arith, out)) h ∙ t,
      ))

module _ (a n : ℕ) (p : Plan) (v : IsValid p) (h : SleepsFor a n p) where
  not_running : a ∉ p.running
  not_running = ground (arith, v.awake a, h.0)

  pub tick-SleepsFor : n ≢ 1 → SleepsFor a (n - 1) (plan_step tick p)
  unfolding plan_step
  tick-SleepsFor ne =
      let left = time_left-ticked a p.sleepers v.on_time h.0 in
      let on =
        time_left-asleep a (ticked p.sleepers) (sleeps-ticked a p.sleepers ∙ h.0)
          (λ z. ne (omega (arith, left, h.1))) in
      subst (AsLong a (n - 1)) (sym (count-sleepers p.running (time_passes p)))
        (on.0, on.1 ∙ omega (arith, left, h.1))

  pub tick_wakes : n ≡ 1 → has a (plan_step tick p).running ≡ true
  unfolding plan_step
  tick_wakes e =
      let left = time_left-ticked a p.sleepers v.on_time h.0 in
      let now =
        due_now a (ticked p.sleepers) (sleeps-ticked a p.sleepers ∙ h.0)
          (omega (arith, left, h.1)) in
      count-running a p.running (time_passes p)
      ∙ has-wake_up a (due (ticked p.sleepers)) p.running
      ∙ ground (arith, now)

  other-SleepsFor : (ms : ℕ) → SleepsFor a n (plan_step (sleep ms) p)
  unfolding plan_step
  other-SleepsFor ms = put_to_sleep-SleepsFor a n ms p p.running h.0 not_running h.1

  exit-SleepsFor : SleepsFor a n (plan_step exit p)
  unfolding plan_step
  exit-SleepsFor = subst (AsLong a n) (sym (take_out-sleepers p p.running)) h

-- A task that sleeps for `n` ticks sleeps on through any events with fewer.
pub plan_run-SleepsFor :
    (a n : ℕ) (es : List Event) (p : Plan)
    → IsValid p
    → AllAllowed es p
    → SleepsFor a n p
    → ticks_in es < n
    → SleepsFor a (n - ticks_in es) (plan_run es p)
plan_run-SleepsFor a n [] p v ok h lt = (h.0, h.1 ∙ omega arith)
plan_run-SleepsFor a n (tick ∷ es) p v ok h lt =
    let r =
      plan_run-SleepsFor a (n - 1) es (plan_step tick p) (plan_step-IsValid tick p v ok.0) ok.1
        (tick-SleepsFor a n p v h (omega arith)) (omega arith) in
    (r.0, r.1 ∙ omega arith)
plan_run-SleepsFor a n (sleep ms ∷ es) p v ok h lt =
    plan_run-SleepsFor a n es (plan_step (sleep ms) p) (plan_step-IsValid (sleep ms) p v ok.0) ok.1
      (other-SleepsFor a n p v h ms) lt
plan_run-SleepsFor a n (exit ∷ es) p v ok h lt =
    plan_run-SleepsFor a n es (plan_step exit p) (plan_step-IsValid exit p v ok.0) ok.1
      (exit-SleepsFor a n p v h) lt
