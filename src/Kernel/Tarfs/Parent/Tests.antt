-- ===== src/Kernel/Tarfs/Parent/Tests.antt =====
-- The path "a/b" at 100, in a file system whose root 5 has the node 7 as "a".
use n00b_os.Prelude.{
  ℕ, ◌≡◌, refl, sym, subst, true, inl, inr, Bool-cases, Option, none, some, List, [], ◌∷◌, arith,
  ◌==◌, if◌then◌else◌, pos,
}
use n00b_os.Libk.Memory.{Memory}
use n00b_os.Libk.Allocator.Bump.{bump}
use n00b_os.Libk.Strings.Laws.{IsString}
use n00b_os.Kernel.ListHead.{Lists, list_head_init, list_add}
use n00b_os.Kernel.ListHead.Laws.{list_head_init-Entries, list_add-Entries}
use n00b_os.Kernel.Tarfs.{v_dir, v_reg}
use n00b_os.Kernel.Tarfs.Nodes.{TarFs}
use n00b_os.Kernel.Tarfs.Mount.{Places, lookup_parent}
use n00b_os.Kernel.Tarfs.Directory.{IsDir}
use n00b_os.Kernel.Tarfs.Lookup.{find_in, NodeIs, Tree, Tree-Finds}
use n00b_os.Kernel.Tarfs.Parent.{lookup_parent-walked}

abbrev memory : Memory
memory a =
    if a == 30
    then 97
    else if a == 100
    then 97
    else if a == 101
    then 47
    else if a == 102
    then 98
    else 0

abbrev links : Lists
links = record { next = λ a. 0; previous = λ a. 0 }

abbrev fs : TarFs bump
fs = record {
  memory = memory;
  vnodes = λ node. record { type = if node == 5 then v_dir else v_reg; data' = 60 };
  regs = λ a. record { size = 0; content = 0 };
  entries = λ a. record { name = 30; vnode = 7 };
  lists = list_add (list_head_init links 60) 60 208;
  heap = 1000;
}

abbrev names : ℕ → Option (List (List ℕ × ℕ))
names node = if node == 5 then some ((97 ∷ [], 7) ∷ []) else none

abbrev root : IsDir bump fs 5 ((97 ∷ [], 7) ∷ [])
root = record {
  at = 200 ∷ [];
  is_dir = refl;
  ring = list_add-Entries 208 (list_head_init-Entries links 60) (omega arith) refl;
  named = ((refl, omega arith, refl), refl, tt);
}

five : (node : ℕ) → (node == 5) ≡ true → node ≡ 5
five node is = ground (arith, is)

tree : Tree bump 20 fs names 300 9 memory
tree node = elim (Bool-cases (node == 5)) [
  | inl is ↦
      subst (λ k. NodeIs bump 20 fs names 300 9 memory k (names k)) (sym (five node is))
        (root, (inr (omega arith), tt), omega arith)
  | inr other ↦
      subst
        (λ b.
          NodeIs bump 20 fs names 300 9 memory node (if b then some ((97 ∷ [], 7) ∷ []) else none))
        (sym other) (ground (arith, other))
]

abbrev at : Places
at = record { ustar = 0; nm = 400; segment = 300 }

lookup_parent-walked_example :
    (m' : Memory) × (lookup_parent bump 40 at fs 5 100 400
      ≡ some (pos 0, 7, record fs { memory = m' }))
    × IsString m' 400 (98 ∷ [])
lookup_parent-walked_example =
    lookup_parent-walked bump fs (λ node cs. find_in (names node) cs) (Tree bump 20 fs names 300 9)
      20 10 40 at memory 5 100 400 (97 ∷ []) ((98 ∷ []) ∷ []) (97 ∷ 47 ∷ 98 ∷ [])
      (Tree-Finds bump 20 fs names 300 9 (omega arith))
      ((refl, omega arith, omega arith, tt), refl, (refl, omega arith, omega arith, tt))
      (omega arith) (refl, omega arith, (refl, omega arith, (refl, omega arith, refl))) (inl refl)
      (omega arith) (omega arith) (inr (omega arith)) (inr (omega arith)) tree (omega arith)
      (omega arith)
