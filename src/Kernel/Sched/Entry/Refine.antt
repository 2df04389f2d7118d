-- ===== src/Kernel/Sched/Entry/Refine.antt =====
-- The entries of the kernel do what the plan says.
use n00b_os.Prelude.{
  none, ◌+◌, ℕ, ◌<◌, ◌≡◌, refl, ◌∙◌, sym, ap, ◌≢◌, ◌^◌, Bool, some, List, [], ◌∷◌, ◌++◌, arith,
  ◌==◌, if◌then◌else◌, Bool-cases, inl, inr, subst, length,
}
use mathlib.Core.Option
use n00b_os.Kernel.Sched.{Sched, sched_park_task, sched_kill_task, sched_switch_next_task}
use n00b_os.Kernel.Sched.Queue.{insert_sleeper}
use n00b_os.Kernel.Sched.Plan.{
  Plan, Event, tick, sleep, exit, begin, put_to_sleep, take_out, plan_step, plan_run, Allowed,
  AllAllowed,
}
use n00b_os.Kernel.Sched.Plan.Valid.{Valid, IsValid}
use n00b_os.Kernel.Sched.Plan.Size.{size, size-plan_step}
use n00b_os.Kernel.Sched.Plan.Keeps.{plan_step-IsValid}
use n00b_os.Kernel.Sched.Entry.{
  irq0_handler, int50_handler, int51_handler, sched_sleep, sched_exit, handle, handle_all,
}
use n00b_os.Kernel.Sched.Entry.Follows.{InMemory, Follows, Ready, switch-Follows}
use n00b_os.Kernel.Sched.Entry.Leave.{yield-Ready, nap-Ready, exit-Ready}
use n00b_os.Kernel.Sched.Entry.Count.{sched_ms_tick-Ready}

sleep-Ready :
    (fuel : ℕ) (s : Sched) (p : Plan) (ms : ℕ) (running : List ℕ)
    → InMemory s s.current_task (record p { running = running })
    → Valid running p.sleepers p.doomed
    → running ≢ []
    → ms < 2 ^ 32
    → length p.sleepers < fuel
    → (s' : Sched) × (sched_park_task fuel s ms ≡ some s') × Ready s' (put_to_sleep ms p running)
sleep-Ready fuel s p ms [] h v ne b32 lt = absurd (ne refl)
sleep-Ready fuel s p ms (c ∷ rs) h v ne b32 lt =
    let P : ℕ → Type 0 = λ a.
      InMemory s s.current_task (record p { running = a ∷ rs })
      → Valid (a ∷ rs) p.sleepers p.doomed
      → (s' : Sched) × (sched_park_task fuel s ms ≡ some s')
        × Ready s' (put_to_sleep ms p (a ∷ rs)) in
    let plan : Bool → Plan = λ b.
      if b
      then begin (record p { running = rs ++ (s.current_task ∷ []) })
      else begin
          (record p { running = rs; sleepers = insert_sleeper s.current_task ms p.sleepers }) in
    subst P h.runs.0
      (λ h' v'. elim (Bool-cases (ms == 0)) [
        | inl z ↦
            let (s', parked, r) = yield-Ready fuel s p rs h' in
            (
              s',
              ap (sched_park_task fuel s) (ground (arith, z)) ∙ parked,
              subst (λ b. Ready s' (plan b)) (sym z) r,
            )
        | inr n ↦
            let (s', parked, r) = nap-Ready fuel s p ms rs h' v' (ground (arith, n)) b32 lt in
            (s', parked, subst (λ b. Ready s' (plan b)) (sym n) r)
      ])
      h v

kill-Ready :
    (s : Sched) (p : Plan) (running : List ℕ)
    → InMemory s s.current_task (record p { running = running })
    → Valid running p.sleepers p.doomed
    → running ≢ []
    → Ready (sched_kill_task s) (take_out p running)
kill-Ready s p [] h v ne = absurd (ne refl)
kill-Ready s p (c ∷ rs) h v ne =
    let P : ℕ → Type 0 = λ a.
      InMemory s s.current_task (record p { running = a ∷ rs })
      → Valid (a ∷ rs) p.sleepers p.doomed
      → Ready (sched_kill_task s) (take_out p (a ∷ rs)) in
    subst P h.runs.0 (λ h' v'. exit-Ready s p rs h' v') h v

-- Each entry of the kernel ends and does what the plan says, where it is allowed.
pub handle_lem :
    (fuel ss esp : ℕ) (e : Event) (s : Sched) (p : Plan)
    → Follows s p
    → IsValid p
    → Allowed e p
    → length p.sleepers < fuel
    → length p.doomed < fuel
    → (s' : Sched) × (handle fuel e ss esp s ≡ some s') × Follows s' (plan_step e p)
unfolding handle irq0_handler int50_handler int51_handler sched_sleep sched_exit plan_step
handle_lem fuel ss esp tick s p f v ok lt lt' =
    let (r, t, _, ready) = sched_ms_tick-Ready fuel s p f v lt lt' in
    (
      (sched_switch_next_task r.1 ss esp).0,
      ap
          (λ o.
            Option.map (λ r. r.0) (Option.map (λ (freed, s'). sched_switch_next_task s' ss esp) o))
          t,
      switch-Follows r.1 ss esp (plan_step tick p) ready (plan_step-IsValid tick p v ok),
    )
handle_lem fuel ss esp (sleep ms) s p f v ok lt lt' =
    let (s', t, ready) = sleep-Ready fuel s p ms p.running f.lists v ok.0 ok.1 lt in
    (
      (sched_switch_next_task s' ss esp).0,
      ap (λ o. Option.map (λ r. r.0) (Option.map (λ s'. sched_switch_next_task s' ss esp) o)) t,
      switch-Follows s' ss esp (plan_step (sleep ms) p) ready (plan_step-IsValid (sleep ms) p v ok),
    )
handle_lem fuel ss esp exit s p f v ok lt lt' = (
  (sched_switch_next_task (sched_kill_task s) ss esp).0,
  refl,
  switch-Follows (sched_kill_task s) ss esp (plan_step exit p)
      (kill-Ready s p p.running f.lists v ok) (plan_step-IsValid exit p v ok),
)

pub handle_all-Follows :
    (fuel : ℕ) (frames : ℕ → ℕ × ℕ) (es : List Event) (s : Sched) (p : Plan)
    → Follows s p
    → IsValid p
    → AllAllowed es p
    → size p + length es < fuel
    → (s' : Sched) × (handle_all fuel frames es s ≡ some s')
      × Follows s' (plan_run es p)
      × IsValid (plan_run es p)
unfolding handle_all
handle_all-Follows fuel frames [] s p f v ok lt = (s, refl, f, v)
handle_all-Follows fuel frames (e ∷ es) s p f v ok lt =
    let (ss, esp) = frames (length es) in
    let (s1, t, f1) = handle_lem fuel ss esp e s p f v ok.0 (omega arith) (omega arith) in
    let (s', ts, f', v') =
      handle_all-Follows fuel frames es s1 (plan_step e p) f1 (plan_step-IsValid e p v ok.0) ok.1
        (omega (arith, size-plan_step e p ok.0)) in
    (s', ap (λ o. elim o [ none ↦ none | some s2 ↦ handle_all fuel frames es s2 ]) t ∙ ts, f', v')
