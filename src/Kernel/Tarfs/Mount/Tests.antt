-- ===== src/Kernel/Tarfs/Mount/Tests.antt =====
-- An archive at 1000 with the directory "e/" and the file "e/b" of one byte, 120.
use n00b_os.Prelude.{
  ℕ, ◌+◌, ◌-◌, ◌≡◌, refl, Option, none, some, List, [], ◌∷◌, ltb, leb, ◌==◌, ◌&&◌, if◌then◌else◌,
  get_or, ℤ, pos,
}
use n00b_os.Libk.Memory.{Memory}
use n00b_os.Libk.Allocator.Bump.{bump}
use n00b_os.Libk.Strings.{strlen, strlen_from, strcmp, strcmp_from, strcpy, strcpy_from}
use n00b_os.Libk.Mem.{memcpy, copy_up}
use n00b_os.Kernel.ListHead.{list_head_init, list_add, list_for_each}
use n00b_os.Kernel.Tarfs.{
  v_reg, is_empty_header, is_valid_header, next_header, read_octal, read_octal_from, node_lookup,
  find_entry,
}
use n00b_os.Kernel.Tarfs.Nodes.{
  create_dir, create_file, add_to_dir, node_lookup_at, tar_dir_entries, name_entry, sized_file,
}
use n00b_os.Kernel.Tarfs.Mount.{
  Places, Mounts, fs_mount, mount_headers, mount_header, lookup_parent, walk, next_name, copy_name,
  new_node,
}

-- the bytes that a header at `at` has, besides zeros
abbrev header : ℕ → List ℕ → ℕ → ℕ → Memory → Memory
header at name size type m a =
    if leb at a && ltb a (at + 100)
    then get_or name (a - at) 0
    else if a == at + 124
    then size
    else if a == at + 156
    then type
    else if leb (at + 257) a && ltb a (at + 265)
    then get_or (117 ∷ 115 ∷ 116 ∷ 97 ∷ 114 ∷ 0 ∷ 48 ∷ 48 ∷ []) (a - (at + 257)) 0
    else m a

abbrev archive : Memory
archive = header 1000 (101 ∷ 47 ∷ []) 48 53 (
    header 1512 (101 ∷ 47 ∷ 98 ∷ []) 49 48 (λ a.
      if leb 10 a && ltb a 15
      then get_or (117 ∷ 115 ∷ 116 ∷ 97 ∷ 114 ∷ []) (a - 10) 0
      else if a == 2024
      then 120
      else 0))

abbrev at : Places
at = record { ustar = 10; nm = 100; segment = 300 }

abbrev before : Mounts bump
before = record {
  fs = record {
    memory = archive;
    vnodes = λ a. record { type = v_reg; data' = 0 };
    regs = λ a. record { size = 0; content = 0 };
    entries = λ a. record { name = 0; vnode = 0 };
    lists = record { next = λ a. 0; previous = λ a. 0 };
    heap = 5000;
  };
  vfs = record { next = 0; ops = 0; data' = 0 };
  roots = λ a. 0;
}

abbrev mounted : Option (ℤ × Mounts bump)
mounted = fs_mount bump 12 at before 1000

-- the error of mounting, the error of looking "b" up in the node at 5024, which is "e", and the first byte
-- of what is found there
abbrev outcome : Option (ℤ × Mounts bump) → Option (ℤ × ℤ × ℕ)
outcome none = none
outcome (some (error, mounts)) = elim (node_lookup_at bump 12 mounts.fs 5024 100 0) [
  | none ↦ none
  | some (not_there, node) ↦
      some
        (error, not_there, mounts.fs.memory (mounts.fs.regs (mounts.fs.vnodes node).data').content)
]

mount-finds : outcome mounted ≡ some (pos 0, pos 0, 120)
unfolding fs_mount mount_headers mount_header new_node lookup_parent walk next_name copy_name
    create_dir create_file sized_file add_to_dir name_entry node_lookup_at tar_dir_entries
    is_empty_header is_valid_header next_header read_octal read_octal_from node_lookup find_entry
    strlen strlen_from strcmp strcmp_from strcpy strcpy_from list_head_init list_add list_for_each
    memcpy copy_up
mount-finds = refl
