-- ===== src/Kernel/ListHead/Tests.antt =====
-- A list at 100 with the entries 102 and 101.
use n00b_os.Prelude.{ℕ, ◌≡◌, refl, some, [], ◌∷◌, arith, leb, length}
use n00b_os.Kernel.ListHead.{Lists, list_head_init, list_empty, list_add, list_for_each}
use n00b_os.Kernel.ListHead.Laws.{
  Entries, list_head_init-Entries, list_add-Entries, list_for_each_lem, list_empty_lem,
}

abbrev nowhere : Lists
nowhere = record { next = λ _. 0; previous = λ _. 0 }

abbrev one : Lists
one = list_add (list_head_init nowhere 100) 100 101

one-Entries : Entries one 100 (101 ∷ [])
one-Entries = list_add-Entries 101 (list_head_init-Entries nowhere 100) (omega arith) refl

-- A list with one entry passes for an empty one.
one_empty : list_empty one 100 ≡ leb (length {A = ℕ} (101 ∷ [])) 1
one_empty = list_empty_lem (101 ∷ []) one-Entries

list_add-Entries_test : Entries (list_add one 100 102) 100 (102 ∷ 101 ∷ [])
list_add-Entries_test = list_add-Entries 102 one-Entries (omega arith) refl

list_head_init-Entries_example : Entries (list_head_init nowhere 100) 100 []
list_head_init-Entries_example = list_head_init-Entries nowhere 100

list_for_each_lem_test : list_for_each 2 one (one.next 100) 100 ≡ some (101 ∷ [])
list_for_each_lem_test = list_for_each_lem 2 one-Entries (omega arith)

list_empty_lem_test : list_empty one 100 ≡ leb (length {A = ℕ} (101 ∷ [])) 1
list_empty_lem_test = list_empty_lem (101 ∷ []) one-Entries
