-- ===== src/Kernel/Sched/RunRing.antt =====
-- The tasks that run: a ring, the current task first.
use n00b_os.Prelude.{ℕ, ◌≡◌, ◌≢◌, ◌∙◌, List, [], ◌∷◌, ◌++◌, arith}
use n00b_os.Kernel.Links.{
  Links, ◌∉◌, Ring, Chain, has-append, Distinct-append, Chain-next-ne, Chain-previous, last_node,
  Ring-insert, Ring-remove, last_node-mem,
}
use n00b_os.Kernel.Sched.{Tasks, Sched, link_after, remove_from_schedule_ring}

abbrev pub nexts : Tasks → Links
nexts tasks a = (tasks a).next

abbrev pub previouses : Tasks → Links
previouses tasks a = (tasks a).previous

-- the tasks that run are `p` and `xs`, in the order of their turns
abbrev pub RunRing : Tasks → ℕ → List ℕ → Type 0
RunRing tasks p xs = Ring (nexts tasks) (previouses tasks) p xs

pub link_after-RunRing :
    (tasks : Tasks) (p new : ℕ) (xs : List ℕ)
    → RunRing tasks p xs
    → new ≢ p
    → new ∉ xs
    → RunRing (link_after tasks p new) p (new ∷ xs)
unfolding link_after
link_after-RunRing tasks p new xs r ne out =
    let second : nexts tasks p ≢ new =
      Chain-next-ne (nexts tasks) (previouses tasks) p p new xs r.chain ne out in
    Ring-insert (nexts tasks) (previouses tasks) (nexts (link_after tasks p new))
      (previouses (link_after tasks p new)) p xs new r ne out (ground arith) (ground arith)
      (λ a n m. ground arith) (ground arith) (ground arith) (λ a n m. ground arith)

-- whoever runs when the task at the head of a ring is gone: nobody, or the next one
abbrev pub Runs : Tasks → ℕ → List ℕ → Type 0
Runs tasks p [] = p ≡ 0
Runs tasks p (x ∷ xs) = (p ≡ x) × RunRing tasks x xs

pub remove_from_schedule_ring-Runs :
    (s : Sched) (xs : List ℕ)
    → RunRing s.tasks s.current_task xs
    → Runs (remove_from_schedule_ring s).tasks (remove_from_schedule_ring s).switched_task xs
unfolding remove_from_schedule_ring
remove_from_schedule_ring-Runs s [] r = ground (arith, r.chain)
remove_from_schedule_ring-Runs s (x ∷ xs) r =
    let s' = remove_from_schedule_ring s in
    let second : nexts s.tasks s.current_task ≡ x = r.chain.0 in
    let last : previouses s.tasks s.current_task ≡ last_node x xs =
      Chain-previous (nexts s.tasks) (previouses s.tasks) s.current_task s.current_task (x ∷ xs)
        r.chain in
    let other : s.current_task ≢ x = ground (arith, r.apart) in
    (
      ground arith,
      Ring-remove (nexts s.tasks) (previouses s.tasks) (nexts s'.tasks) (previouses s'.tasks)
          s.current_task x xs r (ground arith) (λ a n. ground arith) (ground arith)
          (λ a n. ground arith),
    )

-- the tasks outside the ring are left alone
pub remove_from_schedule_ring-frame :
    (s : Sched) (xs : List ℕ) (a : ℕ)
    → RunRing s.tasks s.current_task xs
    → a ∉ (s.current_task ∷ xs)
    → (remove_from_schedule_ring s).tasks a ≡ s.tasks a
unfolding remove_from_schedule_ring
remove_from_schedule_ring-frame s [] a r out = ground (arith, r.chain)
remove_from_schedule_ring-frame s (x ∷ xs) a r out =
    let second : nexts s.tasks s.current_task ≡ x = r.chain.0 in
    let last : previouses s.tasks s.current_task ≡ last_node x xs =
      Chain-previous (nexts s.tasks) (previouses s.tasks) s.current_task s.current_task (x ∷ xs)
        r.chain in
    let outside : a ≢ last_node x xs = λ e. ground (arith, last_node-mem x xs, out, e) in
    let after : a ≢ x = ground arith in ground arith

Chain-append :
    (next previous : Links) (p q end : ℕ) (xs : List ℕ)
    → Chain next previous p xs q
    → next q ≡ end
    → previous end ≡ q
    → Chain next previous p (xs ++ (q ∷ [])) end
Chain-append next previous p q end [] h to back = (h.0, h.1, (to, back))
Chain-append next previous p q end (x ∷ xs) h to back =
    (h.0, h.1, Chain-append next previous x q end xs h.2 to back)

-- A ring, seen from its second task.
pub RunRing-Runs :
    (tasks : Tasks) (p : ℕ) (xs : List ℕ)
    → RunRing tasks p xs
    → Runs tasks (tasks p).next (xs ++ (p ∷ []))
RunRing-Runs tasks p [] r = (r.chain.0, r)
RunRing-Runs tasks p (x ∷ xs) r = (
  r.chain.0,
  record {
    chain = Chain-append (nexts tasks) (previouses tasks) x p x xs r.chain.2 r.chain.0 r.chain.1;
    apart = has-append x p xs ∙ ground (arith, r.distinct, r.apart);
    distinct = Distinct-append p xs r.distinct.1 (ground (arith, r.apart));
  },
)
