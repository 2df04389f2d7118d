-- ===== src/Kernel/Tarfs/Nodes.antt =====
-- kernel/src/all/kernel/vfs/tarfs.c: the nodes of the file system, how they are made, put in a directory
-- and looked up. All nodes have the operations of that file, so a node's `ops` is not kept.
use n00b_os.Prelude.{
  ℕ, ◌+◌, ◌-◌, Option, none, some, List, map, ◌==◌, if◌then◌else◌, ℤ, pos, minus_one,
}
use n00b_os.Libk.Memory.{Memory}
use n00b_os.Libk.Allocator.{Allocator}
use n00b_os.Libk.Mem.{memcpy}
use n00b_os.Libk.Strings.{strlen, strcpy}
use n00b_os.Kernel.ListHead.{Lists, list_head_init, list_add, list_for_each}
use n00b_os.Kernel.Tarfs.{
  VType, v_reg, v_dir, TarDirEntry, TarRegData, tar_header, read_octal, node_lookup,
}

-- `struct vnode`
pub record VNode : Type 0 where
  pub type : VType
  pub data' : ℕ

-- `a[at] = v`
abbrev pub put {ℓ} : {A : Type ℓ} → (ℕ → A) → ℕ → A → ℕ → A
put f at v a = if a == at then v else f a

module _ (A : Allocator) where
  -- All that the file system reads and writes, by address. The list of a `struct tar_dir_data` stands at
  -- its address, that of a `struct tar_dir_entry` 8 bytes behind its address.
  pub record TarFs : Type 0 where
    pub memory : Memory
    pub vnodes : ℕ → VNode
    pub regs : ℕ → TarRegData
    pub entries : ℕ → TarDirEntry
    pub lists : Lists
    pub heap : A.State

  -- the address of the new node, 0 for NULL
  unfoldable pub create_dir : TarFs → ℕ × TarFs
  create_dir fs =
      let (node, heap) = A.malloc 12 fs.heap in
      let (data', heap') = A.malloc 8 heap in
      if node == 0
      then (0, record fs { heap = heap })
      else if data' == 0
      then (
        0,
        record fs {
          heap = A.free node heap';
          vnodes = put fs.vnodes node (record (fs.vnodes node) { type = v_dir });
        },
      )
      else (
        node,
        record fs {
          heap = heap';
          vnodes = put fs.vnodes node (record { type = v_dir; data' = data' });
          lists = list_head_init fs.lists data';
        },
      )

  -- `create_file`, once the size is read
  unfoldable pub sized_file : ℕ → ℕ → TarFs → ℕ × TarFs
  sized_file header size fs =
      let (node, heap1) = A.malloc 12 fs.heap in
      let (data', heap2) = A.malloc 8 heap1 in
      let (content, heap3) = A.malloc size heap2 in
      let with_type = put fs.vnodes node (record (fs.vnodes node) { type = v_reg }) in
      let with_data = put fs.vnodes node (record { type = v_reg; data' = data' }) in
      if node == 0
      then (0, record fs { heap = heap1 })
      else if data' == 0
      then (0, record fs { heap = A.free node heap2; vnodes = with_type })
      else if content == 0
      then (
        0,
        record fs {
          heap = A.free node (A.free data' heap3);
          vnodes = with_data;
          regs = put fs.regs data' (record (fs.regs data') { size = size });
        },
      )
      else (
        node,
        record fs {
          heap = heap3;
          vnodes = with_data;
          regs = put fs.regs data' (record { size = size; content = content });
          memory = memcpy fs.memory content (header + 512) size;
        },
      )

  unfoldable pub create_file : ℕ → ℕ → TarFs → Option (ℕ × TarFs)
  unfolding sized_file
  create_file fuel header fs = elim (read_octal fuel fs.memory (tar_header header).size) [
    | none ↦ none
    | some size ↦ some (sized_file header size fs)
  ]

  -- `name_copy` has been asked for, for a name of `length` characters.
  unfoldable pub name_entry : ℕ → TarFs → ℕ → ℕ → ℕ → ℕ → A.State → ℕ → Option (ℤ × TarFs)
  name_entry fuel fs dir name child entry heap length =
      let (name_copy, heap') = A.malloc (length + 1) heap in
      if name_copy == 0
      then some (minus_one, record fs { heap = A.free entry heap' })
      else elim (strcpy fuel fs.memory name_copy name) [
        | none ↦ none
        | some memory ↦ some (
          pos 0,
          record fs {
            heap = heap';
            memory = memory;
            entries = put fs.entries entry (record { name = name_copy; vnode = child });
            lists = list_add fs.lists (fs.vnodes dir).data' (entry + 8);
          },
        )
      ]

  unfoldable pub add_to_dir : ℕ → TarFs → ℕ → ℕ → ℕ → Option (ℤ × TarFs)
  unfolding name_entry
  add_to_dir fuel fs dir name child =
      let (entry, heap) = A.malloc 16 fs.heap in
      if entry == 0
      then some (minus_one, record fs { heap = heap })
      else elim (strlen fuel fs.memory name) [
        | none ↦ none
        | some length ↦ name_entry fuel fs dir name child entry heap length
      ]

  -- the entries of the list at `head`, in its order
  unfoldable pub tar_dir_entries : ℕ → TarFs → ℕ → Option (List TarDirEntry)
  tar_dir_entries fuel fs head = elim (list_for_each fuel fs.lists (fs.lists.next head) head) [
    | none ↦ none
    | some items ↦ some (map (λ item. fs.entries (item - 8)) items)
  ]

  -- `node_lookup` of the node at `vp`: the error and the node that is found
  unfoldable pub node_lookup_at : ℕ → TarFs → ℕ → ℕ → ℕ → Option (ℤ × ℕ)
  unfolding tar_dir_entries
  node_lookup_at fuel fs vp nm vpp = elim (fs.vnodes vp).type [
    | v_reg ↦ some (minus_one, vpp)
    | v_dir ↦ elim (tar_dir_entries fuel fs (fs.vnodes vp).data') [
      | none ↦ none
      | some entries ↦ node_lookup fuel fs.memory v_dir entries nm vpp
    ]
  ]
