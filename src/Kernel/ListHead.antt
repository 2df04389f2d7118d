-- ===== src/Kernel/ListHead.antt =====
-- kernel/src/all/kernel/list.c and kernel/include/kernel/list.h: rings of `struct list_head`.
pub mod Laws
mod Tests
use n00b_os.Prelude.{ℕ, zero, suc, Bool, Option, none, some, List, [], ◌∷◌, ◌==◌, if◌then◌else◌}
use n00b_os.Kernel.Links.{Links, set_link}
use mathlib.Core.Option

-- the links of all `struct list_head`
pub record Lists : Type 0 where
  pub next : Links
  pub previous : Links

-- `LIST_HEAD_INIT`
unfoldable pub list_head_init : Lists → ℕ → Lists
list_head_init l head = record {
  next = set_link l.next head head;
  previous = set_link l.previous head head;
}

pub list_empty : Lists → ℕ → Bool
list_empty l head = l.next head == l.previous head

unfoldable pub list_add : Lists → ℕ → ℕ → Lists
list_add l head new =
    let after_head = l.next head in
    record {
      next = set_link (set_link l.next head new) new after_head;
      previous = set_link (set_link l.previous after_head new) new head;
    }

-- `LIST_FOR_EACH`: the nodes that the cursor visits
unfoldable pub list_for_each : ℕ → Lists → ℕ → ℕ → Option (List ℕ)
list_for_each zero l cursor list = none
list_for_each (suc fuel) l cursor list =
    let rest = list_for_each fuel l (l.next cursor) list in
    if cursor == list then some [] else Option.map (λ visited. cursor ∷ visited) rest
