-- ===== src/Kernel/Start.antt =====
-- kernel/src/all/kernel/kernel.c: the banner that the kernel shows when it starts.
pub mod Banner
mod Tests
use n00b_os.Prelude.{ℕ, zero, suc, ◌+◌, ◌%◌, Option, none, some, ltb, ◌==◌, if◌then◌else◌, ℤ}
use n00b_os.Libk.Memory.{Memory, store}
use n00b_os.Libk.Mem.{memset}
use n00b_os.Libk.Stdio.{fgetc, ferror}
use n00b_os.Kernel.Vfs.{FileHandle, Rdwr}

-- The loop of `print_banner`: `i`, the stream and memory. It reads a character before it looks at `i`.
unfoldable pub read_banner :
    ℕ → Rdwr → ℕ → FileHandle → Memory → ℕ → ℕ → Option (ℕ × FileHandle × Memory)
read_banner zero rdwr out fp m message i = none
read_banner (suc fuel) rdwr out fp m message i =
    let (c, fp', m') = fgetc rdwr out fp m in
    elim c [
      | ℤ.pos k ↦
          let rest =
            read_banner fuel rdwr out fp' (store m' (message + i) (k % 256)) message (i + 1) in
          if ltb i 77 then rest else some (i, fp', m')
      | ℤ.negsuc k ↦ some (i, fp', m')
    ]

-- `print_banner` from the opened file on, up to what it prints: the arrays `message` and `stars` stand at
-- these addresses. The result is `i`, the stream and memory; `none` is a panic.
unfoldable pub make_banner :
    ℕ → Rdwr → ℕ → FileHandle → Memory → ℕ → ℕ → Option (ℕ × FileHandle × Memory)
unfolding read_banner
make_banner fuel rdwr out fp m message stars = elim (read_banner fuel rdwr out fp m message 0) [
  | none ↦ none
  | some (i, fp', m') ↦
      let ended = store m' (message + i) 0 in
      if ferror fp' == 0
      then some (i, fp', store (memset ended stars 42 (i + 4)) (stars + i + 4) 0)
      else none
]
