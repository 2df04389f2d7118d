-- ===== src/Kernel/Shell.antt =====
-- kernel/src/all/test/shell.c: how the shell reads a line, cuts it into arguments and picks a command.
pub mod Words
pub mod Commands
pub mod Line
pub mod Cat
pub mod Turn
mod Tests
use n00b_os.Prelude.{
  ℕ, zero, suc, ◌+◌, ◌*◌, ◌-◌, ◌%◌, ◌^◌, ◌||◌, Bool, true, false, Option, none, some, List, [], ◌∷◌,
  ◌++◌, length, ◌==◌, if◌then◌else◌, ℤ, pos, is_zero,
}
use n00b_os.Libk.Memory.{Memory}
use n00b_os.Libk.Allocator.{Allocator}
use n00b_os.Libk.Strings.{strtok_r, strcmp}

-- ARGS_BUFFER_SIZE
abbrev pub args_buffer_size : ℕ
args_buffer_size = 4

-- `argv`: its address, what is in it, and for how many pointers there is room; `*argc` is the length
pub record Argv : Type 0 where
  pub at : ℕ
  pub args : List ℕ
  pub args_size : ℕ

-- the four names in `builtin_cmd`
pub data Builtin : Type 0 where
  builtin_help : Builtin
  builtin_echo : Builtin
  builtin_pcb : Builtin
  builtin_cat : Builtin

-- what `execute` does with a line
pub data Execution : Type 0 where
  no_command : Execution
  run : Builtin → Execution
  invalid_command : Execution

-- the loop over `builtin_cmd`, whose names stand at the addresses given
unfoldable pub find_builtin : ℕ → Memory → ℕ → List (ℕ × Builtin) → Option Execution
find_builtin fuel m arg [] = some invalid_command
find_builtin fuel m arg (cmd ∷ cmds) =
    let rest = find_builtin fuel m arg cmds in
    elim (strcmp fuel m arg cmd.0) [
      | none ↦ none
      | some n ↦ if is_zero n then some (run cmd.1) else rest
    ]

-- `empty` is the address of the literal "".
unfoldable pub execute : ℕ → Memory → ℕ → List (ℕ × Builtin) → List ℕ → Option Execution
unfolding find_builtin
execute fuel m empty cmds [] = some no_command
execute fuel m empty cmds (arg ∷ args) =
    let rest = find_builtin fuel m arg cmds in
    elim (strcmp fuel m arg empty) [
      | none ↦ none
      | some n ↦ if is_zero n then some no_command else rest
    ]

-- LINE_BUFFER_SIZE
abbrev pub line_buffer_size : ℕ
line_buffer_size = 32

-- `c == EOF || c == '\n'`, for an `int` of 32 bits
abbrev pub ends_line : ℕ → Bool
ends_line c = (c == 2 ^ 32 - 1) || (c == 10)

-- the buffer of `readline`: its address, its first `position` bytes, and its size
pub record LineBuffer : Type 0 where
  pub at : ℕ
  pub bytes : List ℕ
  pub buffer_size : ℕ

module _ (A : Allocator) where
  -- `buffer[position++] = c`, and more room where there is none left; `none` is a panic
  unfoldable pub put_char : LineBuffer → ℕ → A.State → Option (LineBuffer × A.State)
  put_char b c heap =
      let bytes = b.bytes ++ (c % 256 ∷ []) in
      let buffer_size = b.buffer_size + line_buffer_size in
      let (at, heap') = A.realloc b.at buffer_size heap in
      if length bytes == b.buffer_size
      then if at == 0
        then none
        else some (record { at = at; bytes = bytes; buffer_size = buffer_size }, heap')
      else some (record b { bytes = bytes }, heap)

  -- The loop of `readline` over what `getchar` returns: the buffer, with the final 0, and the input that is
  -- left. `none` is a panic, or waiting for a key. The echo is left out.
  unfoldable pub read_chars : List ℕ → LineBuffer → A.State → Option (LineBuffer × A.State × List ℕ)
  unfolding put_char
  read_chars [] b heap = none
  read_chars (c ∷ input) b heap =
      if ends_line c
      then some (record b { bytes = b.bytes ++ (0 ∷ []) }, heap, input)
      else elim (put_char b c heap) [ none ↦ none | some (b', heap') ↦ read_chars input b' heap' ]

  unfoldable pub readline : List ℕ → A.State → Option (LineBuffer × A.State × List ℕ)
  unfolding read_chars
  readline input heap =
      let (at, heap') = A.malloc line_buffer_size heap in
      if at == 0
      then none
      else read_chars input (record { at = at; bytes = []; buffer_size = line_buffer_size }) heap'

  -- `argv[(*argc)++] = arg`, and more room where there is none left; `none` is a panic
  unfoldable pub put_arg : Argv → ℕ → A.State → Option (Argv × A.State)
  put_arg argv arg heap =
      let args = argv.args ++ (arg ∷ []) in
      let args_size = argv.args_size + args_buffer_size in
      let (at, heap') = A.realloc argv.at (args_size * 4) heap in
      if length args == argv.args_size
      then if at == 0
        then none
        else some (record { at = at; args = args; args_size = args_size }, heap')
      else some (record argv { args = args }, heap)

  -- `arg = strtok_r(str, ...)` and the loop of `parseline`, where each later call has a NULL for `str`
  unfoldable pub parse_args :
      ℕ → ℕ → Memory → ℕ → ℕ → Argv → A.State → Option (Argv × A.State × Memory)
  unfolding put_arg
  parse_args zero separator m str saveptr argv heap = none
  parse_args (suc fuel) separator m str saveptr argv heap =
      elim (strtok_r fuel m str separator saveptr) [
        | none ↦ none
        | some (arg, saveptr', m') ↦
            if arg == 0 then some (argv, heap, m') else elim (put_arg argv arg heap) [
              | none ↦ none
              | some (argv', heap') ↦ parse_args fuel separator m' 0 saveptr' argv' heap'
            ]
      ]

  -- `separator` is the address of ARGS_SEPARATOR; `saveptr` is not set before. `none` is a panic.
  unfoldable pub parseline : ℕ → ℕ → Memory → ℕ → ℕ → A.State → Option (Argv × A.State × Memory)
  unfolding parse_args
  parseline fuel separator m line saveptr heap =
      let (at, heap') = A.malloc (args_buffer_size * 4) heap in
      if at == 0
      then none
      else parse_args fuel separator m line saveptr
          (record { at = at; args = []; args_size = args_buffer_size }) heap'
