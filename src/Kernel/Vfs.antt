-- ===== src/Kernel/Vfs.antt =====
-- kernel/src/all/kernel/vfs.c and kernel/include/kernel/vfs.h: the open files of a process. A handle
-- is known by its address, 0 for NULL. The operations of a file system are called through pointers,
-- and so they are arguments here.
pub mod Handles
pub mod Open
pub mod Path
pub mod Opened
pub mod Initial
mod Tests
use n00b_os.Prelude.{ℕ, ◌+◌, ◌%◌, ◌^◌, Option, none, some, List, [], ◌∷◌, ◌==◌, if◌then◌else◌, ℤ}
use n00b_os.Libk.Memory.{Memory}
use mathlib.Core.Option

-- `struct uio`
pub record Uio : Type 0 where
  pub offset : ℕ
  pub buffer : ℕ
  pub length : ℕ

-- `enum uio_rw`
pub data UioRw : Type 0 where
  uio_read : UioRw
  uio_write : UioRw

-- `struct file_handle`
pub record FileHandle : Type 0 where
  pub node : ℕ
  pub pos : ℕ
  pub flags : ℕ
  pub error : ℕ
  pub eof : ℕ

-- The chain of `struct vfs_open_files`: the `handles` of each, seven in the source.
abbrev pub OpenFiles : Type 0
OpenFiles = List (List ℕ)

-- the inner loop of `put_file_handle`
pub put_in : List ℕ → ℕ → Option (List ℕ)
put_in [] file_handle = none
put_in (h ∷ handles) file_handle =
    let rest = Option.map (λ hs. h ∷ hs) (put_in handles file_handle) in
    if h == 0 then some (file_handle ∷ handles) else rest

-- `none` is a panic.
pub put_file_handle : OpenFiles → ℕ → Option OpenFiles
unfolding put_in
put_file_handle [] file_handle = none
put_file_handle (handles ∷ files) file_handle =
    let later = Option.map (λ fs. handles ∷ fs) (put_file_handle files file_handle) in
    elim (put_in handles file_handle) [ some hs ↦ some (hs ∷ files) | none ↦ later ]

-- the inner loop of `remove_file_handle`
pub remove_in : List ℕ → ℕ → Option (List ℕ)
remove_in [] file_handle = none
remove_in (h ∷ handles) file_handle =
    let rest = Option.map (λ hs. h ∷ hs) (remove_in handles file_handle) in
    if h == file_handle then some (0 ∷ handles) else rest

-- `none` is a panic.
pub remove_file_handle : OpenFiles → ℕ → Option OpenFiles
unfolding remove_in
remove_file_handle [] file_handle = none
remove_file_handle (handles ∷ files) file_handle =
    let later = Option.map (λ fs. handles ∷ fs) (remove_file_handle files file_handle) in
    elim (remove_in handles file_handle) [ some hs ↦ some (hs ∷ files) | none ↦ later ]

-- `close` is VN_CLOSE of the handle's node; the handle's memory is then freed.
pub vn_close : ℤ → OpenFiles → ℕ → Option (ℤ × OpenFiles)
unfolding remove_file_handle
vn_close close files handlep = Option.map (λ fs. (close, fs)) (remove_file_handle files handlep)

-- the `rdwr` operation of a node: the error, and what it leaves in `uio` and memory
abbrev pub Rdwr : Type 0
Rdwr = Uio → UioRw → Memory → ℤ × Uio × Memory

-- the error, `*length`, the handle and memory
unfoldable pub vn_rdwr : Rdwr → FileHandle → UioRw → ℕ → ℕ → Memory → ℤ × ℕ × FileHandle × Memory
vn_rdwr rdwr handlep rw buffer length m =
    let (error, uio, m') =
      rdwr (record { offset = handlep.pos; buffer = buffer; length = length }) rw m in
    (error, uio.length, record handlep { pos = (handlep.pos + uio.length) % 2 ^ 32 }, m')
