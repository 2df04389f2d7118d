-- ===== src/Kernel/Vfs/Open.antt =====
-- kernel/src/all/kernel/vfs.c: opening a file by its path, and the first file system of the kernel.
use n00b_os.Prelude.{
  ℕ, zero, suc, ◌+◌, ◌-◌, Option, none, some, ◌==◌, if◌then◌else◌, ℤ, pos, minus_one, is_zero,
}
use n00b_os.Libk.Memory.{Memory}
use n00b_os.Libk.Allocator.{Allocator}
use n00b_os.Libk.Strings.{strlen, strcpy, strtok_r}
use n00b_os.Kernel.Vfs.{FileHandle, OpenFiles, put_file_handle}

-- The operations of a node that `vn_open` calls through pointers, on the address of the node: `lookup`, of
-- the name at an address, and `open_node`, each with the error and the node that is left in `*vpp`.
pub record VnodeOps : Type 0 where
  pub lookup : Memory → ℕ → ℕ → Option (ℤ × ℕ)
  pub open_node : ℕ → ℤ × ℕ

-- the loop of `vn_open` over the elements of the path: the error, the node, and memory
unfoldable pub walk_path : ℕ → VnodeOps → ℕ → Memory → ℕ → ℕ → ℕ → Option (ℤ × ℕ × Memory)
walk_path zero ops separator m str saveptr node = none
walk_path (suc fuel) ops separator m str saveptr node =
    elim (strtok_r fuel m str separator saveptr) [
      | none ↦ none
      | some (element, saveptr', m') ↦
          if element == 0 then some (pos 0, node, m') else elim (ops.lookup m' node element) [
            | none ↦ none
            | some (error, node') ↦
                let rest = walk_path fuel ops separator m' 0 saveptr' node' in
                if is_zero error then rest else some (error, node', m')
          ]
    ]

module _ (A : Allocator) where
  -- what `vn_open` changes: memory, the handles by address, the files of the process, and the heap
  pub record Files : Type 0 where
    pub memory : Memory
    pub handles : ℕ → FileHandle
    pub files : OpenFiles
    pub heap : A.State

  -- `vn_open` from VN_OPEN on, where the cell `cell` holds `node`. It does not free that cell when it
  -- succeeds.
  unfoldable pub finish_open : VnodeOps → ℕ → ℕ → ℕ → ℕ → Files → Option (ℤ × ℕ × Files)
  finish_open ops handlep cell node f st =
      let (error, node') = ops.open_node node in
      let (handle, heap) = A.malloc 20 st.heap in
      let new : FileHandle = record { node = node'; pos = 0; flags = f; error = 0; eof = 0 } in
      let handles : ℕ → FileHandle = λ a. if a == handle then new else st.handles a in
      if is_zero error
      then if handle == 0
        then some (minus_one, handlep, record st { heap = A.free cell heap })
        else elim (put_file_handle st.files handle) [
          | none ↦ none
          | some files ↦
              some (pos 0, handle, record st { heap = heap; handles = handles; files = files })
        ]
      else some (error, handlep, record st { heap = A.free cell st.heap })

  -- `vn_open` once the path is copied to `workpath`
  unfoldable pub open_workpath :
      ℕ → VnodeOps → ℕ → ℕ → ℕ → ℕ → ℕ → ℕ → ℕ → Files → Option (ℤ × ℕ × Files)
  unfolding walk_path finish_open
  open_workpath fuel ops separator handlep cell node workpath saveptr f st =
      elim (walk_path fuel ops separator st.memory workpath saveptr node) [
        | none ↦ none
        | some (error, node', m) ↦
            let heap = A.free workpath st.heap in
            let opened =
              finish_open ops handlep cell node' f (record st { memory = m; heap = heap }) in
            if is_zero error
            then opened
            else some (error, handlep, record st { memory = m; heap = A.free cell heap })
      ]

  -- The error and `*handlepp`, `handlep` before the call. `root` and `cwd` are the nodes of the process,
  -- `separator` is the address of "/", and `saveptr` what that variable held. `none` is a panic.
  unfoldable pub vn_open : ℕ → VnodeOps → ℕ → ℕ → ℕ → ℕ → ℕ → ℕ → ℕ → Files → Option (ℤ × ℕ × Files)
  unfolding open_workpath
  vn_open fuel ops separator saveptr root cwd handlep path f st =
      elim (strlen fuel st.memory path) [
        | none ↦ none
        | some length ↦
            let (cell, heap) = A.malloc 4 st.heap in
            let (workpath, heap') = A.malloc (length + 1) heap in
            let node = if st.memory path == 47 then root else cwd in
            if length == 0
            then some (minus_one, handlep, st)
            else if st.memory (path + length - 1) == 47
            then some (minus_one, handlep, st)
            else if workpath == 0
            then some (minus_one, handlep, record st { heap = A.free cell heap' })
            else elim (strcpy fuel st.memory workpath path) [
              | none ↦ none
              | some m ↦
                  open_workpath fuel ops separator handlep cell node workpath saveptr f
                    (record st { memory = m; heap = heap' })
            ]
      ]
