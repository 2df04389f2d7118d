-- ===== src/Kernel/Vfs/Opened/Tests.antt =====
-- The path "/a" at 100, with "/" at 10, in a tar file system whose root 5 has the file 7 as "a".
use n00b_os.Prelude.{
  ◌<◌, sym, subst, true, Bool-cases, ℕ, ◌≡◌, refl, ap, inl, inr, Option, none, some, List, [], ◌∷◌,
  arith, ◌==◌, if◌then◌else◌, pos, minus_one,
}
use n00b_os.Libk.Memory.{Memory}
use n00b_os.Libk.Allocator.Bump.{bump}
use n00b_os.Kernel.ListHead.{Lists, list_head_init, list_add}
use n00b_os.Kernel.ListHead.Laws.{list_head_init-Entries, list_add-Entries}
use n00b_os.Kernel.Tarfs.{v_dir, v_reg}
use n00b_os.Kernel.Tarfs.Nodes.{TarFs}
use n00b_os.Kernel.Tarfs.Directory.{IsDir}
use n00b_os.Kernel.Tarfs.Lookup.{node_ops, find_in, NodeIs, Tree, node_ops-Looks}
use n00b_os.Kernel.Vfs.Open.{Files}
use n00b_os.Libk.Strings.Words.{words, cut}
use n00b_os.Kernel.Vfs.{put_file_handle, put_in}
use n00b_os.Kernel.Vfs.Path.{resolve}
use n00b_os.Kernel.Vfs.Opened.{Call, Ready, open_file, vn_open-found, vn_open-Refused}

abbrev memory : Memory
memory a =
    if a == 10
    then 47
    else if a == 30
    then 97
    else if a == 100
    then 47
    else if a == 101
    then 97
    else 0

abbrev links : Lists
links = record { next = λ a. 0; previous = λ a. 0 }

abbrev fs : TarFs bump
fs = record {
  memory = memory;
  vnodes = λ node. record { type = if node == 5 then v_dir else v_reg; data' = 60 };
  regs = λ a. record { size = 0; content = 0 };
  entries = λ a. record { name = 30; vnode = 7 };
  lists = list_add (list_head_init links 60) 60 208;
  heap = 1000;
}

abbrev names : ℕ → Option (List (List ℕ × ℕ))
names node = if node == 5 then some ((97 ∷ [], 7) ∷ []) else none

abbrev root : IsDir bump fs 5 ((97 ∷ [], 7) ∷ [])
root = record {
  at = 200 ∷ [];
  is_dir = refl;
  ring = list_add-Entries 208 (list_head_init-Entries links 60) (omega arith) refl;
  named = ((refl, omega arith, refl), refl, tt);
}

abbrev Nodes : ℕ → Memory → Type 0
Nodes n m = Tree bump 9 fs names 1004 n m

five : (node : ℕ) → (node == 5) ≡ true → node ≡ 5
five node is = ground (arith, is)

abbrev find : ℕ → List ℕ → Option ℕ
find node cs = find_in (names node) cs

tree : (n : ℕ) → n < 3 → Nodes n memory
tree n lt node = elim (Bool-cases (node == 5)) [
  | inl is ↦
      subst (λ k. NodeIs bump 9 fs names 1004 n memory k (names k)) (sym (five node is))
        (root, (inr (omega arith), tt), omega arith)
  | inr other ↦
      subst
        (λ b.
          NodeIs bump 9 fs names 1004 n memory node (if b then some ((97 ∷ [], 7) ∷ []) else none))
        (sym other) (ground (arith, other))
]

abbrev call_of : ℕ → Call bump
call_of path = record {
  ops = node_ops bump 9 fs;
  fuel = 9;
  separator = 10;
  saveptr = 0;
  root = 5;
  cwd = 6;
  handlep = 0;
  path = path;
  flags = 0;
  st = record {
    memory = memory;
    handles = λ a. record { node = 0; pos = 0; flags = 0; error = 0; eof = 0 };
    files = (0 ∷ []) ∷ [];
    heap = 1000;
  };
}

a-Ready : Ready bump (call_of 100) (Nodes 2) find (47 ∷ 97 ∷ []) 1000 1004
a-Ready = record {
  is_path = (refl, omega arith, (refl, omega arith, refl));
  cell_made = refl;
  workpath_made = refl;
  enough = omega arith;
  path_apart = inr (omega arith);
  separator_string = (refl, omega arith, refl);
  separator_apart = inl (omega arith);
  separator_there = omega arith;
  looks = node_ops-Looks bump 9 fs names 1004 2;
  holds = tree 2 (omega arith);
  fuel_enough = omega arith;
}

a-found : resolve find 5 (words (47 ∷ []) (47 ∷ 97 ∷ [])) ≡ (pos 0, 7)
unfolding words cut
a-found = refl

one-place : put_file_handle ((0 ∷ []) ∷ []) 1007 ≡ some ((1007 ∷ []) ∷ [])
unfolding put_file_handle put_in
one-place = refl

vn_open-found_example :
    (st : Files bump) × (open_file bump (call_of 100) ≡ some (pos 0, 1007, st))
    × (st.files ≡ (1007 ∷ []) ∷ [])
    × (st.handles 1007 ≡ record { node = 7; pos = 0; flags = 0; error = 0; eof = 0 })
vn_open-found_example =
    vn_open-found bump (call_of 100) (Nodes 2) find 1000 1004 47 (97 ∷ []) 1007 7 ((1007 ∷ []) ∷ [])
      a-Ready (omega arith) (ap (λ r. r.0) a-found) (ap (λ r. (pos 0, r.1)) a-found) refl
      (omega arith) one-place

-- "/" alone is no file
nothing-Ready : Ready bump (call_of 10) (Nodes 1) find (47 ∷ []) 1000 1004
nothing-Ready = record {
  is_path = (refl, omega arith, refl);
  cell_made = refl;
  workpath_made = refl;
  enough = omega arith;
  path_apart = inr (omega arith);
  separator_string = (refl, omega arith, refl);
  separator_apart = inl (omega arith);
  separator_there = omega arith;
  looks = node_ops-Looks bump 9 fs names 1004 1;
  holds = tree 1 (omega arith);
  fuel_enough = omega arith;
}

vn_open-Refused_example :
    (st : Files bump) × (open_file bump (call_of 10) ≡ some (minus_one, 0, st))
    × (st.files ≡ (0 ∷ []) ∷ [])
    × (st.handles ≡ (call_of 10).st.handles)
vn_open-Refused_example =
    vn_open-Refused bump (call_of 10) (Nodes 1) find 1000 1004 (47 ∷ []) nothing-Ready (inl refl)
