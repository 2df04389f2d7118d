-- ===== src/Kernel/Sched/Plan/Valid.antt =====
-- What holds of a plan at all times: a task runs, sleeps or is to be freed, and no sleeper is overdue.
use n00b_os.Prelude.{
  ℕ, ◌-◌, ◌≡◌, refl, ◌∙◌, ◌≢◌, true, false, ◌||◌, List, [], ◌∷◌, arith, ◌==◌, Bool-cases, inl, inr,
}
use n00b_os.Kernel.Links.{has, ◌∉◌, Distinct, has-append, Distinct-append}
use n00b_os.Kernel.Sched.Queue.{Sleepers, sleeps, insert_sleeper}
use n00b_os.Kernel.Sched.Wake.{due, asleep, awakened, ticked}
use n00b_os.Kernel.Sched.Plan.{Plan, rotate, wake_up}

abbrev pub DistinctSleepers : Sleepers → Type 0
DistinctSleepers [] = Unit
DistinctSleepers ((a, d) ∷ xs) = (sleeps a xs ≡ false) × DistinctSleepers xs

pub record Valid (running : List ℕ) (sleepers : Sleepers) (doomed : List ℕ) : Type 0 where
  pub distinct : DistinctSleepers sleepers
  pub awake : (a : ℕ) → has a running ≡ true → sleeps a sleepers ≡ false
  pub alive : (a : ℕ) → has a running ≡ true → a ∉ doomed
  pub sleeping_alive : (a : ℕ) → sleeps a sleepers ≡ true → a ∉ doomed
  pub no_null : 0 ∉ running
  pub no_null_sleeps : sleeps 0 sleepers ≡ false
  pub distinct_running : Distinct running
  pub on_time : due sleepers ≡ []

abbrev pub IsValid : Plan → Type 0
IsValid p = Valid p.running p.sleepers p.doomed

pub has-rotate : (a : ℕ) (xs : List ℕ) → has a (rotate xs) ≡ has a xs
has-rotate a [] = refl
has-rotate a (x ∷ xs) = has-append a x xs

has-awakened : (a : ℕ) (woken rs : List ℕ) → has a (awakened woken rs) ≡ has a woken || has a rs
has-awakened a [] rs = refl
has-awakened a (b ∷ woken) rs = ground (arith, has-awakened a woken (b ∷ rs))

pub has-wake_up : (a : ℕ) (woken rs : List ℕ) → has a (wake_up woken rs) ≡ has a woken || has a rs
has-wake_up a [] rs = refl
has-wake_up a (b ∷ woken) [] = ground (arith, has-awakened a woken [])
has-wake_up a (b ∷ woken) (c ∷ rs) = ground (arith, has-awakened a (b ∷ woken) rs)

pub sleeps-ticked : (a : ℕ) (xs : Sleepers) → sleeps a (ticked xs) ≡ sleeps a xs
sleeps-ticked a [] = refl
sleeps-ticked a ((b, d) ∷ xs) = refl

pub ticked-DistinctSleepers : (xs : Sleepers) → DistinctSleepers xs → DistinctSleepers (ticked xs)
ticked-DistinctSleepers [] h = tt
ticked-DistinctSleepers ((b, d) ∷ xs) h = h

-- who is due slept
pub has-due : (a : ℕ) (xs : Sleepers) → sleeps a xs ≡ false → has a (due xs) ≡ false
has-due a [] h = refl
has-due a ((b, d) ∷ xs) h = ground (arith, has-due a xs)

pub sleeps-asleep : (a : ℕ) (xs : Sleepers) → sleeps a xs ≡ false → sleeps a (asleep xs) ≡ false
sleeps-asleep a [] h = refl
sleeps-asleep a ((b, d) ∷ xs) h = ground (arith, sleeps-asleep a xs)

-- and sleeps no more
pub sleeps-asleep_due :
    (a : ℕ) (xs : Sleepers)
    → DistinctSleepers xs
    → has a (due xs) ≡ true
    → sleeps a (asleep xs) ≡ false
sleeps-asleep_due a [] h i = refl
sleeps-asleep_due a ((b, d) ∷ xs) h i = elim (Bool-cases (a == b)) [
  | inl e ↦ ground (arith, sleeps-asleep b xs h.0)
  | inr n ↦ ground (arith, sleeps-asleep_due a xs h.1)
]

pub asleep-DistinctSleepers : (xs : Sleepers) → DistinctSleepers xs → DistinctSleepers (asleep xs)
asleep-DistinctSleepers [] h = tt
asleep-DistinctSleepers ((b, d) ∷ xs) h = ground (arith, asleep-DistinctSleepers xs h.1)

pub due-asleep : (xs : Sleepers) → due (asleep xs) ≡ []
due-asleep [] = refl
due-asleep ((b, d) ∷ xs) = ground (arith, due-asleep xs)

pub sleeps-insert :
    (a new ms : ℕ) (xs : Sleepers) → sleeps a (insert_sleeper new ms xs) ≡ (a == new) || sleeps a xs
sleeps-insert a new ms [] = refl
sleeps-insert a new ms ((b, d) ∷ xs) = ground (arith, sleeps-insert a new (ms - d) xs)

pub insert_sleeper-DistinctSleepers :
    (new ms : ℕ) (xs : Sleepers)
    → DistinctSleepers xs
    → sleeps new xs ≡ false
    → DistinctSleepers (insert_sleeper new ms xs)
insert_sleeper-DistinctSleepers new ms [] h out = (refl, tt)
insert_sleeper-DistinctSleepers new ms ((b, d) ∷ xs) h out =
    ground
      (arith, insert_sleeper-DistinctSleepers new (ms - d) xs h.1, sleeps-insert b new (ms - d) xs)

pub due-insert :
    (new ms : ℕ) (xs : Sleepers) → ms ≢ 0 → due xs ≡ [] → due (insert_sleeper new ms xs) ≡ []
due-insert new ms [] nz h = ground arith
due-insert new ms ((b, d) ∷ xs) nz h = ground arith

pub has-due-sleeps : (a : ℕ) (xs : Sleepers) → has a (due xs) ≡ true → sleeps a xs ≡ true
has-due-sleeps a xs i = elim (Bool-cases (sleeps a xs)) [
  | inl e ↦ e
  | inr n ↦ ground (arith, has-due a xs n)
]

pub Distinct-rotate : (xs : List ℕ) → Distinct xs → Distinct (rotate xs)
Distinct-rotate [] d = d
Distinct-rotate (x ∷ xs) d = Distinct-append x xs d.1 d.0

Distinct-awakened :
    (woken rs : List ℕ)
    → Distinct woken
    → Distinct rs
    → ((a : ℕ) → has a woken ≡ true → a ∉ rs)
    → Distinct (awakened woken rs)
Distinct-awakened [] rs d e apart = e
Distinct-awakened (b ∷ woken) rs d e apart =
    Distinct-awakened woken (b ∷ rs) d.1 (apart b (ground arith), e)
      (λ a i. ground (arith, apart a, d.0))

pub Distinct-wake_up :
    (woken rs : List ℕ)
    → Distinct woken
    → Distinct rs
    → ((a : ℕ) → has a woken ≡ true → a ∉ rs)
    → Distinct (wake_up woken rs)
Distinct-wake_up [] rs d e apart = e
Distinct-wake_up (b ∷ woken) [] d e apart =
    (has-awakened b woken [] ∙ ground (arith, d.0), Distinct-awakened woken [] d.1 tt (λ a i. refl))
Distinct-wake_up (b ∷ woken) (c ∷ rs) d e apart = (
  has-awakened c (b ∷ woken) rs ∙ ground (arith, e.0, apart c),
  Distinct-awakened (b ∷ woken) rs d e.1 (λ a i. ground (arith, apart a i)),
)

pub due-Distinct : (xs : Sleepers) → DistinctSleepers xs → Distinct (due xs)
due-Distinct [] h = tt
due-Distinct ((b, d) ∷ xs) h = ground (arith, due-Distinct xs h.1, has-due b xs h.0)
