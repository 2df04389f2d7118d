-- ===== src/Kernel/Shell/Turn.antt =====
-- kernel/src/all/test/shell.c: the commands, and what `test_shell` does with a line.
pub mod Text
pub mod Echo
mod Tests
use n00b_os.Prelude.{
  ◌^◌, ℕ, zero, suc, ◌+◌, ◌-◌, Option, none, some, List, [], ◌∷◌, ◌>>=◌, length, codes, ◌==◌,
  if◌then◌else◌,
}
use mathlib.Core.Option
use n00b_os.Libk.Memory.{Memory, store}
use n00b_os.Libk.Allocator.{Allocator}
use n00b_os.Libk.Printf.{Output, printed, text, number, then_put, printf}
use n00b_os.Kernel.Vfs.{FileHandle, Rdwr}
use n00b_os.Kernel.Shell.{
  Builtin, Execution, no_command, run, invalid_command, execute, readline, parseline,
}
use n00b_os.Kernel.Shell.Cat.{builtin_cat_text}

-- what a `%s` reads of memory
pub text_at : ℕ → Memory → ℕ → Option (List ℕ)
text_at zero m p = none
text_at (suc fuel) m p =
    let rest = text_at fuel m (p + 1) in
    if m p == 0 then some [] else Option.map (λ cs. m p ∷ cs) rest

-- the loops of `help` and `echo`: each string through the same format
pub print_each : ℕ → Memory → List ℕ → List ℕ → Option Output
unfolding text_at
print_each fuel m format [] = some (printed 0 [])
print_each fuel m format (p ∷ ps) =
    let rest = print_each fuel m format ps in
    elim (text_at fuel m p) [
      | none ↦ none
      | some cs ↦ Option.map (λ out. then_put (printf format (text cs ∷ [])) out) rest
    ]

-- `names` are the addresses in `builtin_cmd`.
pub help : ℕ → Memory → List ℕ → Option Output
unfolding print_each
help fuel m names =
    Option.map (λ out. then_put (printf (codes "Valid commands:\n") []) out)
      (print_each fuel m (codes " - %s\n") names)

pub echo : ℕ → Memory → List ℕ → Option Output
unfolding print_each
echo fuel m [] = some (printed 0 [])
echo fuel m (arg ∷ args) = print_each fuel m (codes "%s ") args

-- what `pcb` reads through the current process control block
pub record Shown : Type 0 where
  pub tgid : ℕ
  pub heap_start : ℕ
  pub heap_end : ℕ
  pub root : ℕ
  pub cwd : ℕ

pub pcb : Shown → Output
pcb s = printf (codes "PID: %u\nHeap from 0x%X to 0x%X (%u bytes)\nRoot dir: %X\nWorking dir: %X") (
    number s.tgid
    ∷ number s.heap_start
    ∷ number s.heap_end
    ∷ number (s.heap_end + 2 ^ 32 - s.heap_start)
    ∷ number s.root
    ∷ number s.cwd
    ∷ [])

module _ (A : Allocator) where
  -- `name` is the second argument, and `opened` what `fopen` gives for it, `none` for NULL.
  pub cat : ℕ → Rdwr → ℕ → Memory → List ℕ → List ℕ → Option FileHandle → A.State → Output
  cat fuel rdwr out m argv name opened heap =
      let print : Output = elim opened [
        | none ↦ printf (codes "Failed to open file %s") (text name ∷ [])
        | some fp ↦ elim (builtin_cat_text A fuel rdwr out fp m heap) [
          | none ↦ printf (codes "Error: not enough memory to read file") []
          | some (none, heap') ↦ printf (codes "Failed to read %s") (text name ∷ [])
          | some (some cs, heap') ↦
              printf (codes "%s\n%u bytes") (text cs ∷ number (length cs) ∷ [])
        ]
      ] in
      if length argv == 2
      then print
      else printf (codes "Error: expecting a single argument, the file to read") []

  -- the bytes of a buffer in memory
  pub put_bytes : Memory → ℕ → List ℕ → Memory
  put_bytes m p [] = m
  put_bytes m p (c ∷ cs) = put_bytes (store m p c) (p + 1) cs

  -- What `execute` does for a line, with the memory and the heap that the command leaves: `builtin_func` holds
  -- the commands.
  pub perform :
      (Builtin → List ℕ → Memory → A.State → Option (Output × Memory × A.State))
      → Execution
      → List ℕ
      → Memory
      → A.State
      → Option (Output × Memory × A.State)
  perform builtin_func no_command argv m heap = some (printed 0 [], m, heap)
  perform builtin_func invalid_command argv m heap =
      some (printf (codes "Invalid command") [], m, heap)
  perform builtin_func (run b) argv m heap = builtin_func b argv m heap

  -- A round of the loop of `test_shell`: what the command prints, the keys that are left, memory and the heap.
  -- `cmds` are the names of the commands with their addresses; `none` is a panic, waiting for a key, or
  -- fuel that did not last. The prompt and the echo of the keys are left out.
  pub turn :
      ℕ
      → ℕ
      → ℕ
      → List (ℕ × Builtin)
      → (Builtin → List ℕ → Memory → A.State → Option (Output × Memory × A.State))
      → List ℕ
      → Memory
      → ℕ
      → A.State
      → Option (Output × List ℕ × Memory × A.State)
  unfolding put_bytes perform
  turn fuel separator empty cmds builtin_func input m saveptr heap = do
    (line, heap1, input') ← readline A input heap
    (argv, heap2, m2) ←
        parseline A fuel separator (put_bytes m line.at line.bytes) line.at saveptr heap1
    chosen ← execute fuel m2 empty cmds argv.args
    (out, m3, heap3) ← perform builtin_func chosen argv.args m2 heap2
    some (out, input', m3, A.free line.at (A.free argv.at heap3))
