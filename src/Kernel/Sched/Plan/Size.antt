-- ===== src/Kernel/Sched/Plan/Size.antt =====
-- How many tasks a plan has: only a new one adds to them.
use n00b_os.Prelude.{
  either_way, ℕ, suc, ◌+◌, ◌-◌, ◌≤◌, ◌≡◌, ◌≢◌, refl, List, [], ◌∷◌, ◌++◌, arith, ◌==◌, length,
}
use n00b_os.Kernel.Sched.{decrement}
use n00b_os.Kernel.Sched.Queue.{Sleepers, insert_sleeper}
use n00b_os.Kernel.Sched.Wake.{due, asleep, awakened, ticked}
use n00b_os.Kernel.Sched.Plan.{
  plan_run, AllAllowed, Plan, Event, tick, sleep, exit, rotate, wake_up, time_passes, count,
  put_to_sleep, take_out, plan_step, Allowed,
}

abbrev pub size : Plan → ℕ
size p = length p.running + length p.sleepers + length p.doomed

length-awakened : (woken rs : List ℕ) → length (awakened woken rs) ≡ length woken + length rs
length-awakened [] rs = omega arith
length-awakened (a ∷ woken) rs = omega (arith, length-awakened woken (a ∷ rs))

length-wake_up : (woken rs : List ℕ) → length (wake_up woken rs) ≡ length woken + length rs
length-wake_up [] rs = omega arith
length-wake_up (a ∷ woken) [] = omega (arith, length-awakened woken [])
length-wake_up (a ∷ woken) (c ∷ rs) = omega (arith, length-awakened (a ∷ woken) rs)

length-due : (xs : Sleepers) → length (due xs) + length (asleep xs) ≡ length xs
length-due [] = refl
length-due ((a, d) ∷ xs) = ground (arith, length-due xs)

length-ticked : (xs : Sleepers) → length (ticked xs) ≡ length xs
length-ticked [] = refl
length-ticked ((a, d) ∷ xs) = refl

length-insert_sleeper :
    (c ms : ℕ) (xs : Sleepers) → length (insert_sleeper c ms xs) ≡ suc (length xs)
length-insert_sleeper c ms [] = refl
length-insert_sleeper c ms ((a, d) ∷ xs) = ground (arith, length-insert_sleeper c (ms - d) xs)

length-behind : (c : ℕ) (rs : List ℕ) → length (rs ++ (c ∷ [])) ≡ suc (length rs)
length-behind c [] = refl
length-behind c (r ∷ rs) = omega (arith, length-behind c rs)

length-rotate : (rs : List ℕ) → length (rotate rs) ≡ length rs
length-rotate [] = refl
length-rotate (c ∷ rs) = length-behind c rs

size-count : (rs : List ℕ) (p : Plan) → size (count rs p) ≡ size p
size-count [] p = refl
size-count (c ∷ rs) p =
    either_way (λ p'. size p' ≡ size p) (decrement p.quantum == 0)
      (λ _. omega (arith, length-rotate p.running)) (λ _. refl)

size-time_passes : (p : Plan) → size (time_passes p) ≤ size p
size-time_passes p = omega (
  arith,
  length-wake_up (due (ticked p.sleepers)) p.running,
  length-due (ticked p.sleepers),
  length-ticked p.sleepers,
)

module _ (p : Plan) where
  size-put_to_sleep :
      (ms : ℕ) (rs : List ℕ)
      → rs ≢ []
      → size (put_to_sleep ms p rs) ≡ length rs + length p.sleepers + length p.doomed
  size-put_to_sleep ms [] ne = absurd (ne refl)
  size-put_to_sleep ms (c ∷ rs) ne =
      either_way (λ p'. size p' ≡ suc (length rs) + length p.sleepers + length p.doomed) (ms == 0)
        (λ _. omega (arith, length-behind c rs))
        (λ _. omega (arith, length-insert_sleeper c ms p.sleepers))

  size-take_out :
      (rs : List ℕ)
      → rs ≢ []
      → size (take_out p rs) ≡ length rs + length p.sleepers + length p.doomed
  size-take_out [] ne = absurd (ne refl)
  size-take_out (c ∷ rs) ne = omega arith

pub size-plan_step : (e : Event) (p : Plan) → Allowed e p → size (plan_step e p) ≤ suc (size p)
unfolding plan_step
size-plan_step tick p ok = omega (arith, size-count p.running (time_passes p), size-time_passes p)
size-plan_step (sleep ms) p ok = omega (arith, size-put_to_sleep p ms p.running ok.0)
size-plan_step exit p ok = omega (arith, size-take_out p p.running ok)

pub size-plan_run :
    (es : List Event) (p : Plan) → AllAllowed es p → size (plan_run es p) ≤ size p + length es
size-plan_run [] p ok = omega arith
size-plan_run (e ∷ es) p ok =
    omega (arith, size-plan_step e p ok.0, size-plan_run es (plan_step e p) ok.1)
