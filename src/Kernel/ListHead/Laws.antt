-- ===== src/Kernel/ListHead/Laws.antt =====
-- The ring behind a list head, oldest entry last.
use n00b_os.Prelude.{ℕ, zero, suc, ◌<◌, ◌≡◌, refl, ◌≢◌, some, List, [], ◌∷◌, arith, leb, length}
use n00b_os.Kernel.Links.{
  ◌∉◌, Chain, Ring, last_node-mem, Chain-previous, Chain-next-ne, Ring-insert,
}
use n00b_os.Kernel.ListHead.{Lists, list_head_init, list_empty, list_add, list_for_each}

-- the entries of the list at `head` are `xs`
abbrev pub Entries : Lists → ℕ → List ℕ → Type 0
Entries l head xs = Ring l.next l.previous head xs

-- `LIST_HEAD_INIT` makes a list with no entry.
pub list_head_init-Entries : (l : Lists) (head : ℕ) → Entries (list_head_init l head) head []
unfolding list_head_init
list_head_init-Entries l head = record { chain = ground arith; apart = refl; distinct = tt }

-- `list_add` puts a node that is not in the list in front of the entries.
pub list_add-Entries :
    {l : Lists} {head : ℕ} {xs : List ℕ} (new : ℕ)
    → Entries l head xs
    → new ≢ head
    → new ∉ xs
    → Entries (list_add l head new) head (new ∷ xs)
unfolding list_add
list_add-Entries {l} {head} {xs} new r ne out =
    Ring-insert l.next l.previous (list_add l head new).next (list_add l head new).previous head xs
      new r ne out (ground arith) (ground arith) (λ a p q. ground arith) (ground arith)
      (ground (arith, Chain-next-ne l.next l.previous head head new xs r.chain ne out))
      (λ a p q. ground arith)

visit :
    (fuel : ℕ) (l : Lists) (head p : ℕ) (xs : List ℕ)
    → Chain l.next l.previous p xs head
    → head ∉ xs
    → length xs < fuel
    → list_for_each fuel l (l.next p) head ≡ some xs
unfolding list_for_each
visit zero l head p xs h out lt = absurd (omega arith)
visit (suc fuel) l head p [] h out lt = ground arith
visit (suc fuel) l head p (x ∷ xs) h out lt = ground (arith, visit fuel l head x xs h.2)

-- `LIST_FOR_EACH` visits the entries in order and ends, given a round more than there are entries.
pub list_for_each_lem :
    (fuel : ℕ) {l : Lists} {head : ℕ} {xs : List ℕ}
    → Entries l head xs
    → length xs < fuel
    → list_for_each fuel l (l.next head) head ≡ some xs
list_for_each_lem fuel {l} {head} {xs} r lt = visit fuel l head head xs r.chain r.apart lt

-- `list_empty` says that a list is empty exactly when it has at most one entry.
pub list_empty_lem :
    {l : Lists} {head : ℕ} (xs : List ℕ) → Entries l head xs → list_empty l head ≡ leb (length xs) 1
unfolding list_empty
list_empty_lem [] r = ground (arith, r.chain)
list_empty_lem {l} {head} (x ∷ []) r = ground (arith, r.chain)
list_empty_lem {l} {head} (x ∷ y ∷ ys) r = ground (
  arith,
  r.chain,
  r.distinct,
  last_node-mem y ys,
  Chain-previous l.next l.previous head head (x ∷ y ∷ ys) r.chain,
)
