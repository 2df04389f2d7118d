-- ===== src/Kernel/Vfs/Opened.antt =====
-- What `vn_open` does for a path: the file that is found, and the errors.
mod Tests
use n00b_os.Prelude.{
  ℕ, zero, suc, ◌+◌, ◌-◌, ◌<◌, ◌≤◌, ◌≡◌, ◌≢◌, ◌⊎◌, inl, inr, refl, sym, ap, ◌∙◌, subst, Bool, true,
  false, Bool-cases, Option, none, some, List, [], ◌∷◌, arith, length, ◌==◌, if◌then◌else◌, ℤ, pos,
  minus_one, is_zero,
}
use n00b_os.Libk.Memory.{Memory, Apart}
use n00b_os.Libk.Allocator.{Allocator}
use n00b_os.Libk.Strings.{strtok_r}
use n00b_os.Libk.Strings.Laws.{IsString, IsString-frame, strlen_lem, strcpy-Copied}
use n00b_os.Libk.Strings.Words.{words}
use n00b_os.Kernel.Vfs.{FileHandle, OpenFiles, put_file_handle}
use n00b_os.Kernel.Vfs.Open.{VnodeOps, walk_path, Files, finish_open, open_workpath, vn_open}
use n00b_os.Kernel.Vfs.Path.{resolve, SameOutside, Looks, walk_path-resolve}

-- the last character, `c` if there is none
abbrev pub last_or : ℕ → List ℕ → ℕ
last_or c [] = c
last_or c (d ∷ ds) = last_or d ds

last_or_lem :
    (m : Memory) (p c : ℕ) (cs : List ℕ)
    → m p ≡ c
    → IsString m (p + 1) cs
    → m (p + length cs) ≡ last_or c cs
last_or_lem m p c [] h k = ground (arith, h)
last_or_lem m p c (d ∷ ds) h k = ground (arith, last_or_lem m (p + 1) d ds k.0 k.2)

-- a call of `vn_open`
pub record Call (A : Allocator) : Type 0 where
  pub ops : VnodeOps
  pub fuel : ℕ
  pub separator : ℕ
  pub saveptr : ℕ
  pub root : ℕ
  pub cwd : ℕ
  pub handlep : ℕ
  pub path : ℕ
  pub flags : ℕ
  pub st : Files A

abbrev pub open_file : (A : Allocator) → Call A → Option (ℤ × ℕ × Files A)
open_file A c =
    vn_open A c.fuel c.ops c.separator c.saveptr c.root c.cwd c.handlep c.path c.flags c.st

-- The path `cs`, which is not empty, and the blocks that `vn_open` gets for it: `cell` and `workpath`.
pub record Ready (A : Allocator) (c : Call A) (Holds : Memory → Type 0)
    (find : ℕ → List ℕ → Option ℕ) (cs : List ℕ) (cell workpath : ℕ) : Type 0 where
  pub is_path : IsString c.st.memory c.path cs
  pub cell_made : (A.malloc 4 c.st.heap).0 ≡ cell
  pub workpath_made : (A.malloc (length cs + 1) (A.malloc 4 c.st.heap).1).0 ≡ workpath
  pub enough : workpath ≢ 0
  pub path_apart : Apart workpath (length cs + 1) c.path (length cs + 1)
  pub separator_string : IsString c.st.memory c.separator (47 ∷ [])
  pub separator_apart : Apart c.separator 2 workpath (length cs + 1)
  pub separator_there : c.separator ≢ 0
  pub looks : Looks c.ops Holds find c.fuel workpath (length cs + 1)
  pub holds : Holds c.st.memory
  pub fuel_enough : length cs + 2 < c.fuel

-- where `vn_open` begins
abbrev pub first_node : (A : Allocator) → Call A → List ℕ → ℕ
first_node A c [] = c.cwd
first_node A c (d ∷ ds) = if d == 47 then c.root else c.cwd

module _ (A : Allocator) (c : Call A) (Holds : Memory → Type 0) (find : ℕ → List ℕ → Option ℕ)
    (cell workpath : ℕ) where
  -- what the path leads to
  abbrev reached : List ℕ → ℤ × ℕ
  reached cs = resolve find (first_node A c cs) (words (47 ∷ []) cs)

  vn_open-resolve :
      (d : ℕ) (ds : List ℕ)
      → Ready A c Holds find (d ∷ ds) cell workpath
      → last_or d ds ≢ 47
      → let heap = A.free workpath (A.malloc (length (d ∷ ds) + 1) (A.malloc 4 c.st.heap).1).1 in
        let r = reached (d ∷ ds) in
        (m : Memory) × (open_file A c ≡ (
          if is_zero r.0
          then finish_open A c.ops c.handlep cell r.1 c.flags
              (record c.st { memory = m; heap = heap })
          else some (r.0, c.handlep, record c.st { memory = m; heap = A.free cell heap })))
  unfolding vn_open open_workpath
  vn_open-resolve d ds ready last =
      let cs = d ∷ ds in
      let m = c.st.memory in
      let measured =
        strlen_lem c.fuel m c.path cs ready.is_path (omega (arith, ready.fuel_enough)) in
      let ended = last_or_lem m c.path d ds ready.is_path.0 ready.is_path.2 in
      let copied =
        strcpy-Copied c.fuel m workpath c.path cs ready.is_path ready.path_apart
          (omega (arith, ready.fuel_enough)) in
      let same : SameOutside workpath (length cs + 1) m copied.0 =
        λ a out. copied.2.1 a (ground (arith, out)) in
      let walked =
        walk_path-resolve c.ops Holds find c.fuel workpath (length cs + 1) ready.looks c.fuel
          c.separator copied.0 workpath c.saveptr (first_node A c cs) (47 ∷ []) cs workpath
          (ground (arith, ready.enough)) copied.2.0 ready.enough (omega arith) (omega arith)
          (IsString-frame m copied.0 c.separator (47 ∷ [])
            (λ a lo hi. same a (ground (arith, ready.separator_apart))) ready.separator_string)
          ready.separator_there ready.separator_apart (omega (arith, ready.fuel_enough))
          (omega (arith, ready.fuel_enough)) (ready.looks.stay m copied.0 ready.holds same) in
      (
        walked.0,
        ground (
          arith, measured, ended, copied.1, walked.1, ready.workpath_made, ready.cell_made,
          ready.enough, ready.is_path.0,
        ),
      )

  finish_open_lem :
      (node' handle node : ℕ) (files : OpenFiles) (st : Files A)
      → c.ops.open_node node' ≡ (pos 0, node)
      → (A.malloc 20 st.heap).0 ≡ handle
      → handle ≢ 0
      → put_file_handle st.files handle ≡ some files
      → let new : FileHandle = record {
        node = node;
        pos = 0;
        flags = c.flags;
        error = 0;
        eof = 0;
      } in
        finish_open A c.ops c.handlep cell node' c.flags st
        ≡ some (
          pos 0,
          handle,
          record st {
            handles = λ a. if a == handle then new else st.handles a;
            files = files;
            heap = (A.malloc 20 st.heap).1;
          },
        )
  unfolding finish_open
  finish_open_lem node' handle node files st opens made hn room =
      ground (arith, opens, made, hn, room)

  -- `vn_open` of a path that is not empty, does not end in "/" and leads to a node that opens, where there
  -- is memory for the handle at `handle` and room for it among the files of the process: it succeeds with
  -- that handle, which then is among the files and stands at the start of the node.
  pub vn_open-found :
      (d : ℕ) (ds : List ℕ) (handle node : ℕ) (files : OpenFiles)
      → Ready A c Holds find (d ∷ ds) cell workpath
      → last_or d ds ≢ 47
      → (reached (d ∷ ds)).0 ≡ pos 0
      → c.ops.open_node (reached (d ∷ ds)).1 ≡ (pos 0, node)
      → (A.malloc 20
          (A.free workpath (A.malloc (length (d ∷ ds) + 1) (A.malloc 4 c.st.heap).1).1)).0
        ≡ handle
      → handle ≢ 0
      → put_file_handle c.st.files handle ≡ some files
      → (st : Files A) × (open_file A c ≡ some (pos 0, handle, st))
        × (st.files ≡ files)
        × (st.handles handle ≡ record { node = node; pos = 0; flags = c.flags; error = 0; eof = 0 })
  vn_open-found d ds handle node files ready last found opens made hn room =
      let r = vn_open-resolve d ds ready last in
      let freed = A.free workpath (A.malloc (length (d ∷ ds) + 1) (A.malloc 4 c.st.heap).1).1 in
      let new : FileHandle = record { node = node; pos = 0; flags = c.flags; error = 0; eof = 0 } in
      let handles : ℕ → FileHandle = λ a. if a == handle then new else c.st.handles a in
      let st : Files A = record {
        memory = r.0;
        handles = handles;
        files = files;
        heap = (A.malloc 20 freed).1;
      } in
      (
        st,
        r.1
            ∙ ground (arith, found)
            ∙ finish_open_lem (reached (d ∷ ds)).1 handle node files
                (record c.st { memory = r.0; heap = freed }) opens made hn room,
        refl,
        ground arith,
      )

  -- the path is empty, ends in "/" or leads to no node
  abbrev Refused : List ℕ → Type 0
  Refused [] = Unit
  Refused (d ∷ ds) = (last_or d ds ≡ 47) ⊎ ((reached (d ∷ ds)).0 ≡ minus_one)

  -- `vn_open` of a path that is empty, ends in "/" or leads to no node returns -1, and changes neither
  -- `*handlepp` nor a handle nor the files of the process.
  pub vn_open-Refused :
      (cs : List ℕ)
      → Ready A c Holds find cs cell workpath
      → Refused cs
      → (st : Files A) × (open_file A c ≡ some (minus_one, c.handlep, st))
        × (st.files ≡ c.st.files)
        × (st.handles ≡ c.st.handles)
  unfolding vn_open
  vn_open-Refused [] ready refused =
      let measured =
        strlen_lem c.fuel c.st.memory c.path [] ready.is_path (omega (arith, ready.fuel_enough)) in
      (c.st, ground (arith, measured), refl, refl)
  vn_open-Refused (d ∷ ds) ready refused =
      let measured =
        strlen_lem c.fuel c.st.memory c.path (d ∷ ds) ready.is_path
          (omega (arith, ready.fuel_enough)) in
      let ended = last_or_lem c.st.memory c.path d ds ready.is_path.0 ready.is_path.2 in
      elim (Bool-cases (last_or d ds == 47)) [
        | inl slash ↦ (c.st, ground (arith, measured, ended, slash), refl, refl)
        | inr other ↦
            let r = vn_open-resolve d ds ready (ground (arith, other)) in
            (
              record c.st {
                memory = r.0;
                heap =
                    A.free cell
                      (A.free workpath (A.malloc (length (d ∷ ds) + 1) (A.malloc 4 c.st.heap).1).1);
              },
              r.1 ∙ ground (arith, other),
              refl,
              refl,
            )
      ]
