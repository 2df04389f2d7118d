-- ===== src/Libk/Stdio.antt =====
-- libk/src/all/stdio: files as streams of characters, over the kernel's handles.
pub mod Stream
mod Tests
use n00b_os.Prelude.{
  ℕ, ◌-◌, ◌%◌, ◌^◌, Bool, Option, none, some, ◌==◌, if◌then◌else◌, ℤ, pos, minus_one, is_zero,
}
use n00b_os.Libk.Memory.{Memory}
use n00b_os.Libk.Allocator.{Allocator}
use n00b_os.Kernel.Keyboard.{Keyboard, kbd_getchar}
use n00b_os.Kernel.Vfs.{FileHandle, OpenFiles, Rdwr, uio_read, vn_rdwr, vn_close}
use n00b_os.Kernel.Vfs.Open.{VnodeOps, Files, vn_open}

abbrev pub eof : ℤ
eof = minus_one

-- an `int` as its 32 bits
abbrev pub int_bits : ℤ → ℕ
int_bits (ℤ.pos n) = n % 2 ^ 32
int_bits (ℤ.negsuc n) = 2 ^ 32 - 1 - n % 2 ^ 32

-- The character as an `unsigned char`, or EOF, with the stream and memory; `out` is the address of the
-- variable of that name.
unfoldable pub fgetc : Rdwr → ℕ → FileHandle → Memory → ℤ × FileHandle × Memory
fgetc rdwr out stream m =
    let (error, length, stream', m') = vn_rdwr rdwr stream uio_read out 1 m in
    if is_zero error
    then if length == 1 then (pos (m' out), stream', m') else (eof, record stream' { eof = 1 }, m')
    else (eof, record stream' { error = int_bits error }, m')

pub feof : FileHandle → ℕ
feof stream = stream.eof

abbrev pub ferror : FileHandle → ℕ
ferror stream = stream.error

pub clearerr : FileHandle → FileHandle
clearerr stream = record stream { error = 0; eof = 0 }

-- The address of the file, 0 for NULL; `mode` is not looked at. The first arguments are those of
-- `vn_open`, and `file` is what that variable held.
pub fopen : (A : Allocator) → ℕ → VnodeOps → ℕ → ℕ → ℕ → ℕ → ℕ → ℕ → Files A → Option (ℕ × Files A)
fopen A fuel ops separator saveptr root cwd file filename st =
    elim (vn_open A fuel ops separator saveptr root cwd file filename 0 st) [
      | none ↦ none
      | some (error, file', st') ↦ some (if is_zero error then file' else 0, st')
    ]

-- `close` is what the node's `close` returns; `none` is a panic
pub fclose : ℤ → OpenFiles → ℕ → Option (ℤ × OpenFiles)
fclose close files stream = elim (vn_close close files stream) [
  | none ↦ none
  | some (error, files') ↦ some (if is_zero error then pos 0 else eof, files')
]

pub getchar : Keyboard → ℕ → Option (ℤ × Keyboard)
getchar k thechar = kbd_getchar k thechar
