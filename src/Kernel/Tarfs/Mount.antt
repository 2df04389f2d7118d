-- ===== src/Kernel/Tarfs/Mount.antt =====
-- kernel/src/all/kernel/vfs/tarfs.c: mounting a tar archive. What `fs_mount` prints is left out.
mod Tests
use n00b_os.Prelude.{
  ℕ, zero, suc, ◌+◌, ◌-◌, ◌%◌, ◌^◌, true, false, Option, none, some, ltb, ◌==◌, if◌then◌else◌, ℤ,
  pos, minus_one, is_zero,
}
use n00b_os.Libk.Memory.{Memory, store}
use n00b_os.Libk.Allocator.{Allocator}
use n00b_os.Libk.Strings.{strlen, strcpy}
use n00b_os.Kernel.Tarfs.{tar_header, is_empty_header, is_valid_header, next_header}
use n00b_os.Kernel.Tarfs.Nodes.{TarFs, create_dir, create_file, add_to_dir, node_lookup_at}

-- `while(index<length && path[index]!='/')`, on the number of rounds up to `length`: `index`, `nm_index`
-- and memory
unfoldable pub copy_name : ℕ → Memory → ℕ → ℕ → ℕ → ℕ → ℕ × ℕ × Memory
copy_name zero m path nm nm_index index = (index, nm_index, m)
copy_name (suc k) m path nm nm_index index =
    let rest =
      copy_name k (store m (nm + nm_index) (m (path + index))) path nm (nm_index + 1) (index + 1) in
    if m (path + index) == 47 then (index, nm_index, m) else rest

-- `struct vfs`
pub record VfsT : Type 0 where
  pub next : ℕ
  pub ops : ℕ
  pub data' : ℕ

-- The error and the vfs at `vfsp`; `fs_ops` is the address of the table of operations.
pub vfs_tarfs_init : ℕ → ℕ → VfsT → ℤ × VfsT
vfs_tarfs_init fs_ops vfsp v =
    if vfsp == 0 then (minus_one, v) else (pos 0, record v { next = 0; ops = fs_ops })

-- Addresses that the compiler gives: of the literal "ustar", and of the arrays `nm` of `fs_mount` and of
-- `lookup_parent`.
pub record Places : Type 0 where
  pub ustar : ℕ
  pub nm : ℕ
  pub segment : ℕ

module _ (A : Allocator) where
  -- one more name of the path: the index that follows, and the name in the array `nm`
  unfoldable pub next_name : ℕ → TarFs A → ℕ → ℕ → ℕ → ℕ × TarFs A
  unfolding copy_name
  next_name length fs path nm index =
      let (index', nm_index, m) = copy_name (length - index) fs.memory path nm 0 index in
      (index', record fs { memory = store m (nm + nm_index) 0 })

  -- The `do` loop of `lookup_parent`: the error and `current`.
  unfoldable pub walk : ℕ → TarFs A → ℕ → ℕ → ℕ → ℕ → ℕ → Option (ℤ × ℕ × TarFs A)
  unfolding next_name
  walk zero fs length path nm current index = none
  walk (suc fuel) fs length path nm current index =
      let (index', fs') = next_name length fs path nm index in
      if ltb index' length
      then elim (node_lookup_at A fuel fs' current nm current) [
        | none ↦ none
        | some (error, next) ↦
            let rest = walk fuel fs' length path nm next (index' + 1) in
            if is_zero error
            then if ltb (index' + 1) length then rest else some (pos 0, next, fs')
            else some (minus_one, next, fs')
      ]
      else some (pos 0, current, fs')

  -- The error, `*parent`, and the name that is put at `name`. Where `path` is empty, the byte before it
  -- is read, and the loop then has nothing to do.
  unfoldable pub lookup_parent : ℕ → Places → TarFs A → ℕ → ℕ → ℕ → Option (ℤ × ℕ × TarFs A)
  unfolding walk
  lookup_parent fuel at fs root path name = elim (strlen fuel fs.memory path) [
    | none ↦ none
    | some n ↦
        let length = if fs.memory ((path + n + 2 ^ 32 - 1) % 2 ^ 32) == 47 then n - 1 else n in
        elim (walk fuel fs length path at.segment root 0) [
          | none ↦ none
          | some (error, parent, fs') ↦
              if is_zero error
              then elim (strcpy fuel fs'.memory name at.segment) [
                | none ↦ none
                | some memory ↦ some (pos 0, parent, record fs' { memory = memory })
              ]
              else some (minus_one, root, fs')
        ]
  ]

  -- A node of the type that the header names: its address, 0 for NULL and where there is no such type,
  -- on which `fs_mount` fails alike.
  new_node : ℕ → ℕ → TarFs A → Option (ℕ × TarFs A)
  new_node fuel header fs =
      let type = fs.memory (tar_header header).type in
      if type == 48
      then create_file A fuel header fs
      else if type == 53
      then some (create_dir A fs)
      else some (0, fs)

  -- the body of the loop of `fs_mount`, which ignores an error of `add_to_dir`
  mount_header : ℕ → Places → ℕ → TarFs A → ℕ → Option (ℤ × TarFs A)
  unfolding new_node
  mount_header fuel at root fs header = elim (is_valid_header fuel fs.memory at.ustar header) [
    | none ↦ none
    | some false ↦ some (minus_one, fs)
    | some true ↦ elim (lookup_parent fuel at fs root (tar_header header).filename at.nm) [
      | none ↦ none
      | some (error, parent, fs1) ↦
          if is_zero error
          then elim (new_node fuel header fs1) [
            | none ↦ none
            | some (node, fs2) ↦
                if node == 0
                then some (minus_one, fs2)
                else elim (add_to_dir A fuel fs2 parent at.nm node) [
                  | none ↦ none
                  | some (ignored, fs3) ↦ some (pos 0, fs3)
                ]
          ]
          else some (minus_one, fs1)
    ]
  ]

  -- `for(header = datap; !is_empty_header(header); header = next_header(header))`
  unfoldable pub mount_headers : ℕ → Places → ℕ → TarFs A → ℕ → Option (ℤ × TarFs A)
  unfolding mount_header
  mount_headers zero at root fs header = none
  mount_headers (suc fuel) at root fs header =
      if is_empty_header fs.memory header
      then some (pos 0, fs)
      else elim (mount_header fuel at root fs header) [
        | none ↦ none
        | some (error, fs') ↦
            if is_zero error
            then elim (next_header fuel fs'.memory header) [
              | none ↦ none
              | some next ↦ mount_headers fuel at root fs' next
            ]
            else some (error, fs')
      ]

  -- what mounting changes: the nodes, the vfs, and the `root` of each `struct tar_vfs_data`
  pub record Mounts : Type 0 where
    pub fs : TarFs A
    pub vfs : VfsT
    pub roots : ℕ → ℕ

  unfoldable pub fs_mount : ℕ → Places → Mounts → ℕ → Option (ℤ × Mounts)
  fs_mount fuel at mounts datap =
      let (vfs_data, heap) = A.malloc 4 mounts.fs.heap in
      let fs = record mounts.fs { heap = heap } in
      let (root, fs1) = create_dir A fs in
      let vfs = record mounts.vfs { data' = vfs_data } in
      let roots : ℕ → ℕ = λ a. if a == vfs_data then root else mounts.roots a in
      if vfs_data == 0
      then some (minus_one, record mounts { fs = fs })
      else if root == 0
      then some (minus_one, record mounts { fs = fs1; vfs = vfs })
      else elim (mount_headers fuel at root fs1 datap) [
        | none ↦ none
        | some (error, fs2) ↦ some (error, record { fs = fs2; vfs = vfs; roots = roots })
      ]

  -- the error and `*vpp`
  unfoldable pub fs_root : Mounts → ℤ × ℕ
  fs_root mounts = (pos 0, mounts.roots mounts.vfs.data')
