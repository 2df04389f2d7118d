-- ===== src/Kernel/Tarfs/Directory/Tests.antt =====
-- A directory at 50 with "ab", whose entry stands at 200 and whose node is 7. "ab" also stands at 20, and
-- "c" at 30.
use n00b_os.Prelude.{ℕ, ◌+◌, ◌≡◌, refl, inr, some, [], ◌∷◌, arith, ◌==◌, if◌then◌else◌, pos}
use n00b_os.Libk.Memory.{Memory}
use n00b_os.Libk.Allocator.Bump.{bump}
use n00b_os.Libk.Strings.Laws.{IsString}
use n00b_os.Kernel.ListHead.{Lists, list_head_init, list_add}
use n00b_os.Kernel.ListHead.Laws.{list_head_init-Entries, list_add-Entries}
use n00b_os.Kernel.Tarfs.{v_dir}
use n00b_os.Kernel.Tarfs.Nodes.{TarFs, add_to_dir, node_lookup_at}
use n00b_os.Kernel.Tarfs.Directory.{IsDir, node_lookup_at-find_name, add_to_dir-IsDir}

abbrev memory : Memory
memory a =
    if a == 10
    then 97
    else if a == 11
    then 98
    else if a == 20
    then 97
    else if a == 21
    then 98
    else if a == 30
    then 99
    else 0

abbrev links : Lists
links = record { next = λ a. 0; previous = λ a. 0 }

abbrev fs : TarFs bump
fs = record {
  memory = memory;
  vnodes = λ a. record { type = v_dir; data' = 60 };
  regs = λ a. record { size = 0; content = 0 };
  entries = λ a. record { name = 10; vnode = 7 };
  lists = list_add (list_head_init links 60) 60 208;
  heap = 1000;
}

ab :
    (p : ℕ)
    → memory p ≡ 97
    → memory (p + 1) ≡ 98
    → memory (p + 1 + 1) ≡ 0
    → IsString memory p (97 ∷ 98 ∷ [])
ab p a b end = (a, omega arith, (b, omega arith, end))

abbrev dir : IsDir bump fs 50 ((97 ∷ 98 ∷ [], 7) ∷ [])
dir = record {
  at = 200 ∷ [];
  is_dir = refl;
  ring = list_add-Entries 208 (list_head_init-Entries links 60) (omega arith) refl;
  named = (ab 10 refl refl refl, refl, tt);
}

node_lookup_at-find_name_example : node_lookup_at bump 3 fs 50 20 9 ≡ some (pos 0, 7)
node_lookup_at-find_name_example =
    node_lookup_at-find_name bump 3 fs 50 20 9 (97 ∷ 98 ∷ []) ((97 ∷ 98 ∷ [], 7) ∷ []) dir
      (ab 20 refl refl refl) (omega arith) (omega arith)

add_to_dir-IsDir_example :
    (fs' : TarFs bump) × (add_to_dir bump 3 fs 50 30 8 ≡ some (pos 0, fs'))
    × IsDir bump fs' 50 ((99 ∷ [], 8) ∷ (97 ∷ 98 ∷ [], 7) ∷ [])
add_to_dir-IsDir_example =
    add_to_dir-IsDir bump 3 fs 50 30 8 1000 1016 1016 1018 (99 ∷ []) ((97 ∷ 98 ∷ [], 7) ∷ []) dir
      (refl, omega arith, refl) (omega arith) refl refl (omega arith) (omega arith) (omega arith)
      refl (inr (omega arith), tt) (inr (omega arith))
