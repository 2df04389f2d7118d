-- ===== src/Kernel/Sched/Plan/Keeps.antt =====
-- Each entry of the kernel keeps a plan valid.
use n00b_os.Prelude.{
  either_way, ℕ, ◌≡◌, refl, ◌≢◌, true, ◌∙◌, List, [], ◌∷◌, arith, ◌==◌, Bool-cases, inl, inr, sym,
}
use n00b_os.Kernel.Links.{has, ◌∉◌}
use n00b_os.Kernel.Sched.{decrement}
use n00b_os.Kernel.Sched.Queue.{Sleepers, insert_sleeper}
use n00b_os.Kernel.Sched.Wake.{due, asleep, ticked}
use n00b_os.Kernel.Sched.Plan.{
  Plan, Event, tick, sleep, exit, rotate, wake_up, count, time_passes, put_to_sleep, take_out,
  plan_step, Allowed,
}
use n00b_os.Kernel.Sched.Plan.Valid.{
  Valid, has-rotate, has-wake_up, sleeps-ticked, ticked-DistinctSleepers, has-due, sleeps-asleep,
  sleeps-asleep_due, asleep-DistinctSleepers, due-asleep, sleeps-insert,
  insert_sleeper-DistinctSleepers, due-insert, has-due-sleeps, Distinct-rotate, Distinct-wake_up,
  due-Distinct, IsValid,
}

wake_up-Valid :
    (rs : List ℕ) (xs : Sleepers) (ds : List ℕ)
    → Valid rs xs ds
    → Valid (wake_up (due (ticked xs)) rs) (asleep (ticked xs)) []
wake_up-Valid rs xs ds h =
    let ys = ticked xs in
    let distinct = ticked-DistinctSleepers xs h.distinct in
    let apart : (a : ℕ) → has a (due ys) ≡ true → a ∉ rs =
      λ a i. ground (arith, h.awake a, has-due-sleeps a ys i, sleeps-ticked a xs) in
    record {
      distinct = asleep-DistinctSleepers ys distinct;
      awake = λ a i. elim (Bool-cases (has a (due ys))) [
        | inl e ↦ sleeps-asleep_due a ys distinct e
        | inr n ↦
            sleeps-asleep a ys
              (sleeps-ticked a xs ∙ h.awake a (ground (arith, i, n, has-wake_up a (due ys) rs)))
      ];
      alive = λ a i. refl;
      sleeping_alive = λ a i. refl;
      no_null =
          has-wake_up 0 (due ys) rs
          ∙ ground (arith, has-due 0 ys (sleeps-ticked 0 xs ∙ h.no_null_sleeps), h.no_null);
      no_null_sleeps = sleeps-asleep 0 ys (sleeps-ticked 0 xs ∙ h.no_null_sleeps);
      distinct_running =
          Distinct-wake_up (due ys) rs (due-Distinct ys distinct) h.distinct_running apart;
      on_time = due-asleep ys;
    }

rotate-Valid :
    (rs : List ℕ) (xs : Sleepers) (ds : List ℕ) → Valid rs xs ds → Valid (rotate rs) xs ds
rotate-Valid rs xs ds h = record {
  distinct = h.distinct;
  awake = λ a i. h.awake a (sym (has-rotate a rs) ∙ i);
  alive = λ a i. h.alive a (sym (has-rotate a rs) ∙ i);
  sleeping_alive = h.sleeping_alive;
  no_null = has-rotate 0 rs ∙ h.no_null;
  no_null_sleeps = h.no_null_sleeps;
  distinct_running = Distinct-rotate rs h.distinct_running;
  on_time = h.on_time;
}

insert-Valid :
    (c ms : ℕ) (rs : List ℕ) (xs : Sleepers) (ds : List ℕ)
    → ms ≢ 0
    → Valid (c ∷ rs) xs ds
    → Valid rs (insert_sleeper c ms xs) ds
insert-Valid c ms rs xs ds nz h = record {
  distinct = insert_sleeper-DistinctSleepers c ms xs h.distinct (h.awake c (ground arith));
  awake = λ a i. sleeps-insert a c ms xs ∙ ground (arith, h.awake a, h.distinct_running);
  alive = λ a i. h.alive a (ground arith);
  sleeping_alive =
      λ a i. ground (arith, h.sleeping_alive a, h.alive c, sym (sleeps-insert a c ms xs));
  no_null = ground (arith, h.no_null);
  no_null_sleeps = sleeps-insert 0 c ms xs ∙ ground (arith, h.no_null, h.no_null_sleeps);
  distinct_running = h.distinct_running.1;
  on_time = due-insert c ms xs nz h.on_time;
}

take_out-Valid :
    (c : ℕ) (rs : List ℕ) (xs : Sleepers) (ds : List ℕ)
    → Valid (c ∷ rs) xs ds
    → Valid rs xs (c ∷ ds)
take_out-Valid c rs xs ds h = record {
  distinct = h.distinct;
  awake = λ a i. h.awake a (ground arith);
  alive = λ a i. ground (arith, h.alive a, h.distinct_running);
  sleeping_alive = λ a i. ground (arith, h.sleeping_alive a, h.awake c);
  no_null = ground (arith, h.no_null);
  no_null_sleeps = h.no_null_sleeps;
  distinct_running = h.distinct_running.1;
  on_time = h.on_time;
}

count-IsValid : (rs : List ℕ) (p : Plan) → IsValid p → IsValid (count rs p)
count-IsValid [] p h = h
count-IsValid (c ∷ rs) p h =
    either_way IsValid (decrement p.quantum == 0)
      (λ _. rotate-Valid p.running p.sleepers p.doomed h) (λ _. h)

put_to_sleep-IsValid :
    (ms : ℕ) (p : Plan) (rs : List ℕ)
    → Valid rs p.sleepers p.doomed
    → rs ≢ []
    → IsValid (put_to_sleep ms p rs)
put_to_sleep-IsValid ms p [] h ne = absurd (ne refl)
put_to_sleep-IsValid ms p (c ∷ rs) h ne =
    either_way IsValid (ms == 0) (λ _. rotate-Valid (c ∷ rs) p.sleepers p.doomed h)
      (λ n. insert-Valid c ms rs p.sleepers p.doomed (ground (arith, n)) h)

take_out-IsValid :
    (p : Plan) (rs : List ℕ) → Valid rs p.sleepers p.doomed → rs ≢ [] → IsValid (take_out p rs)
take_out-IsValid p [] h ne = absurd (ne refl)
take_out-IsValid p (c ∷ rs) h ne = take_out-Valid c rs p.sleepers p.doomed h

pub plan_step-IsValid : (e : Event) (p : Plan) → IsValid p → Allowed e p → IsValid (plan_step e p)
unfolding plan_step
plan_step-IsValid tick p h ok =
    count-IsValid p.running (time_passes p) (wake_up-Valid p.running p.sleepers p.doomed h)
plan_step-IsValid (sleep ms) p h ok = put_to_sleep-IsValid ms p p.running h ok.0
plan_step-IsValid exit p h ok = take_out-IsValid p p.running h ok
