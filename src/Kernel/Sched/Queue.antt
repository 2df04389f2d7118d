-- ===== src/Kernel/Sched/Queue.antt =====
-- The sleeping tasks: each holds the ticks that it sleeps on after the one before it.
use n00b_os.Prelude.{
  ℕ, zero, suc, ◌+◌, ◌-◌, ◌^◌, ◌<◌, ◌≡◌, refl, sym, ap, ◌∙◌, ◌≢◌, Bool, true, false, ◌||◌, some,
  List, [], ◌∷◌, arith, ltb, ◌==◌, if◌then◌else◌, length, Bool-cases, inl, inr, ◌⊎◌, subst,
}
use n00b_os.Kernel.Sched.{Task, Tasks, Place, find_place, bed}

-- address and ticks of each sleeping task, first to wake first
abbrev pub Sleepers : Type 0
Sleepers = List (ℕ × ℕ)

abbrev pub sleeps : ℕ → Sleepers → Bool
sleeps a [] = false
sleeps a ((b, d) ∷ xs) = (a == b) || sleeps a xs

-- `next` leads from `p` through the distinct tasks `xs` to NULL
abbrev pub IsQueue : Tasks → ℕ → Sleepers → Type 0
IsQueue tasks p [] = p ≡ 0
IsQueue tasks p ((a, d) ∷ xs) =
    (p ≡ a)
    × (a ≢ 0)
    × ((tasks a).remaining_ticks ≡ d)
    × (d < 2 ^ 32)
    × (sleeps a xs ≡ false)
    × IsQueue tasks (tasks a).next xs

-- a sleeper put where it wakes after `ms` ticks
abbrev pub insert_sleeper : ℕ → ℕ → Sleepers → Sleepers
insert_sleeper new ms [] = (new, ms) ∷ []
insert_sleeper new ms ((a, d) ∷ xs) =
    if ltb d ms then (a, d) ∷ insert_sleeper new (ms - d) xs else (new, ms) ∷ (a, d - ms) ∷ xs

-- when each task wakes, counted from `now`
abbrev pub wake_times : ℕ → Sleepers → Sleepers
wake_times now [] = []
wake_times now ((a, d) ∷ xs) = (a, now + d) ∷ wake_times (now + d) xs

-- a task and its time put in the order of time, before those of the same time
abbrev pub insert_by_time : ℕ → ℕ → Sleepers → Sleepers
insert_by_time new time [] = (new, time) ∷ []
insert_by_time new time ((a, w) ∷ ws) =
    if ltb w time then (a, w) ∷ insert_by_time new time ws else (new, time) ∷ (a, w) ∷ ws

-- The new sleeper wakes after its own time, and every other when it would have done.
pub wake_times-insert_sleeper :
    (now new ms : ℕ) (xs : Sleepers)
    → wake_times now (insert_sleeper new ms xs) ≡ insert_by_time new (now + ms) (wake_times now xs)
wake_times-insert_sleeper now new ms [] = refl
wake_times-insert_sleeper now new ms ((a, d) ∷ xs) = elim (Bool-cases (ltb d ms)) [
  | inl later ↦ ground (arith, wake_times-insert_sleeper (now + d) new (ms - d) xs)
  | inr sooner ↦ ground arith
]

pub IsQueue-frame :
    (tasks tasks' : Tasks) (p : ℕ) (xs : Sleepers)
    → ((a : ℕ) → sleeps a xs ≡ true → tasks' a ≡ tasks a)
    → IsQueue tasks p xs
    → IsQueue tasks' p xs
IsQueue-frame tasks tasks' p [] same h = h
IsQueue-frame tasks tasks' p ((a, d) ∷ xs) same h = (
  h.0,
  h.1,
  ap (λ t. Task.remaining_ticks t) (same a (ground arith)) ∙ h.2,
  h.3,
  h.4,
  subst (λ n. IsQueue tasks' n xs) (sym (ap (λ t. Task.next t) (same a (ground arith))))
      (IsQueue-frame tasks tasks' (tasks a).next xs (λ b i. same b (ground arith)) h.5),
)

-- the task that a queue begins with
abbrev pub first : ℕ → ℕ → Sleepers → ℕ
first new ms [] = new
first new ms ((a, d) ∷ xs) = if ltb d ms then a else new

pub sleeps-insert_sleeper :
    (a new ms : ℕ) (xs : Sleepers)
    → sleeps a xs ≡ false
    → a ≢ new
    → sleeps a (insert_sleeper new ms xs) ≡ false
sleeps-insert_sleeper a new ms [] h ne = ground arith
sleeps-insert_sleeper a new ms ((b, d) ∷ xs) h ne =
    ground (arith, sleeps-insert_sleeper a new (ms - d) xs)

-- `going` stands in its place in a queue that `previous` leads to
pub record Bedded (tasks : Tasks) (fuel going previous p ms : ℕ) (xs : Sleepers) : Type 0 where
  pub place : Place
  pub found :
      find_place fuel tasks (record { previous = previous; t = p; remaining = ms }) ≡ some place
  pub queue : IsQueue (bed tasks going place) (first going ms xs) (insert_sleeper going ms xs)
  pub linked : previous ≢ 0 → (bed tasks going place previous).next ≡ first going ms xs
  pub kept :
      previous ≢ 0
      → (bed tasks going place previous).remaining_ticks ≡ (tasks previous).remaining_ticks
  pub frame :
      (a : ℕ) → sleeps a xs ≡ false → a ≢ going → a ≢ previous → bed tasks going place a ≡ tasks a
  pub start :
      ((place.previous ≡ previous) × (first going ms xs ≡ going))
      ⊎ ((place.previous ≢ 0) × (first going ms xs ≡ p))

module _ (fuel : ℕ) (tasks : Tasks) (going previous a d ms : ℕ) (xs : Sleepers) where
  pass :
      ltb d ms ≡ true
      → a ≢ 0
      → (tasks a).remaining_ticks ≡ d
      → d < 2 ^ 32
      → sleeps a xs ≡ false
      → going ≢ 0
      → going ≢ previous
      → sleeps going ((a, d) ∷ xs) ≡ false
      → sleeps previous ((a, d) ∷ xs) ≡ false
      → (previous ≢ 0 → (tasks previous).next ≡ a)
      → Bedded tasks fuel going a (tasks a).next (ms - d) xs
      → Bedded tasks (suc fuel) going previous a ms ((a, d) ∷ xs)
  unfolding find_place
  pass later an ad db once nz ne out outp link b =
      let same = b.frame previous (ground arith) (ground arith) (ground arith) in
      record {
        place = b.place;
        found = ground (arith, b.found);
        queue =
            subst
              (λ l. IsQueue (bed tasks going b.place) (if l then a else going) (
                if l
                then (a, d) ∷ insert_sleeper going (ms - d) xs
                else (going, ms) ∷ (a, d - ms) ∷ xs))
              (sym later)
              (
                refl,
                an,
                b.kept an ∙ ad,
                db,
                sleeps-insert_sleeper a going (ms - d) xs once (ground arith),
                subst (λ n. IsQueue (bed tasks going b.place) n (insert_sleeper going (ms - d) xs))
                    (sym (b.linked an)) b.queue,
              );
        linked = λ n. ap (λ t. Task.next t) same ∙ link n ∙ ground arith;
        kept = λ n. ap (λ t. Task.remaining_ticks t) same;
        frame = λ c o g n. b.frame c (ground arith) g (ground arith);
        start = inr (ground (arith, b.start), ground arith);
      }

  stay :
      ltb d ms ≡ false
      → a ≢ 0
      → (tasks a).remaining_ticks ≡ d
      → d < 2 ^ 32
      → sleeps a xs ≡ false
      → IsQueue tasks (tasks a).next xs
      → going ≢ 0
      → going ≢ previous
      → ms < 2 ^ 32
      → sleeps going ((a, d) ∷ xs) ≡ false
      → sleeps previous ((a, d) ∷ xs) ≡ false
      → Bedded tasks (suc fuel) going previous a ms ((a, d) ∷ xs)
  unfolding find_place bed
  stay sooner an ad db once rest nz ne b32 out outp = record {
    place = record { previous = previous; t = a; remaining = ms };
    found = ground arith;
    queue =
        let t' = bed tasks going (record { previous = previous; t = a; remaining = ms }) in
        let step : (tasks a).next ≡ (t' a).next = ground arith in
        subst
          (λ l. IsQueue t' (if l then a else going) (
            if l
            then (a, d) ∷ insert_sleeper going (ms - d) xs
            else (going, ms) ∷ (a, d - ms) ∷ xs))
          (sym sooner)
          (
            refl,
            nz,
            ground arith,
            b32,
            ground arith,
            (
              ground arith,
              an,
              ground arith,
              omega arith,
              once,
              subst (λ n. IsQueue t' n xs) step
                  (IsQueue-frame tasks t' (tasks a).next xs (λ b i. ground arith) rest),
            ),
          );
    linked = λ n. ground arith;
    kept = λ n. ground arith;
    frame = λ c o g n. ground arith;
    start = ground arith;
  }

pub put_to_bed :
    (fuel : ℕ) (tasks : Tasks) (going previous p ms : ℕ) (xs : Sleepers)
    → IsQueue tasks p xs
    → length xs < fuel
    → going ≢ 0
    → going ≢ previous
    → ms < 2 ^ 32
    → sleeps going xs ≡ false
    → sleeps previous xs ≡ false
    → (previous ≢ 0 → (tasks previous).next ≡ p)
    → Bedded tasks fuel going previous p ms xs
unfolding find_place bed
put_to_bed zero tasks going previous p ms xs q lt nz ne b32 out outp link = absurd (omega arith)
put_to_bed (suc fuel) tasks going previous p ms [] q lt nz ne b32 out outp link = record {
  place = record { previous = previous; t = p; remaining = ms };
  found = ground arith;
  queue = ground arith;
  linked = λ n. ground arith;
  kept = λ n. ground arith;
  frame = λ a o g n. ground arith;
  start = ground arith;
}
put_to_bed (suc fuel) tasks going previous p ms ((a, d) ∷ xs) q lt nz ne b32 out outp link =
    subst (λ x. Bedded tasks (suc fuel) going previous x ms ((a, d) ∷ xs)) (sym q.0)
      (elim (Bool-cases (ltb d ms)) [
        | inl later ↦
            pass fuel tasks going previous a d ms xs later q.1 q.2 q.3 q.4 nz ne out outp
              (λ n. link n ∙ q.0)
              (put_to_bed fuel tasks going a (tasks a).next (ms - d) xs q.5 (omega arith) nz
                (ground arith) (omega arith) (ground arith) q.4 (λ _. refl))
        | inr sooner ↦
            stay fuel tasks going previous a d ms xs sooner q.1 q.2 q.3 q.4 q.5 nz ne b32 out outp
      ])
