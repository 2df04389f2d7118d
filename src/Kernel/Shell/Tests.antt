-- ===== src/Kernel/Shell/Tests.antt =====
-- The line "cat a" at 100, with the separator " " at 10, the empty string at 20 and "cat" at 30.
use n00b_os.Prelude.{
  ℕ, ◌+◌, ◌<◌, ◌≤◌, ◌≡◌, ◌≢◌, refl, inl, some, [], ◌∷◌, arith, length, get_or, ltb, leb, ◌==◌, ◌&&◌,
  ◌-◌, if◌then◌else◌,
}
use n00b_os.Libk.Memory.{Memory, bytes}
use n00b_os.Libk.Allocator.{Allocator}
use n00b_os.Libk.Strings.Laws.{IsString}
use n00b_os.Libk.Strings.Words.{words}
use n00b_os.Kernel.Shell.{Argv, LineBuffer, run, builtin_cat, execute, parseline, readline}
use n00b_os.Kernel.Vfs.{FileHandle}
use n00b_os.Kernel.Tarfs.{TarRegData, v_reg, node_rdwr}
use n00b_os.Kernel.Shell.Cat.{builtin_cat_text, builtin_cat_text_lem}
use n00b_os.Kernel.Shell.Words.{Plenty, Strings, parseline-words}
use n00b_os.Kernel.Shell.Commands.{execute-command}
use n00b_os.Kernel.Shell.Line.{readline_lem}

-- Memory is never given back.
abbrev bump : Allocator
bump = record {
  State = ℕ;
  malloc = λ size next. (next + 1, next + size);
  free = λ p next. next;
  realloc = λ p size next. (next + 1, next + size);
}

plenty : Plenty bump
plenty = (λ size next. omega arith, λ p size next. omega arith)

abbrev memory : Memory
memory a =
    if a == 10
    then 32
    else if leb 30 a && ltb a 33
    then get_or (99 ∷ 97 ∷ 116 ∷ []) (a - 30) 0
    else if leb 100 a
    then get_or (99 ∷ 97 ∷ 116 ∷ 32 ∷ 97 ∷ []) (a - 100) 0
    else 0

line : IsString memory 100 (99 ∷ 97 ∷ 116 ∷ 32 ∷ 97 ∷ [])
line = (
  refl,
  omega arith,
  (refl, omega arith, (refl, omega arith, (refl, omega arith, (refl, omega arith, refl)))),
)

cat : IsString memory 30 (99 ∷ 97 ∷ 116 ∷ [])
cat = (refl, omega arith, (refl, omega arith, (refl, omega arith, refl)))

parseline-words_example :
    (argv : Argv) × (heap : ℕ) × (m' : Memory) × (parseline bump 9 10 memory 100 0 500
      ≡ some (argv, heap, m'))
    × Strings m' argv.args (words (32 ∷ []) (99 ∷ 97 ∷ 116 ∷ 32 ∷ 97 ∷ []))
    × (length argv.args < argv.args_size)
parseline-words_example =
    parseline-words bump plenty 9 10 memory 100 0 (32 ∷ []) (99 ∷ 97 ∷ 116 ∷ 32 ∷ 97 ∷ []) 500 line
      (omega arith) (refl, omega arith, refl) (omega arith) (inl (omega arith)) (omega arith)

execute-command_test :
    execute 4 memory 20 ((30, builtin_cat) ∷ []) (30 ∷ 104 ∷ []) ≡ some (run builtin_cat)
execute-command_test =
    execute-command 4 memory 20 30 (104 ∷ []) (99 ∷ 97 ∷ 116 ∷ []) ((30, builtin_cat) ∷ [])
      ((99 ∷ 97 ∷ 116 ∷ [], builtin_cat) ∷ []) refl cat (cat, refl, tt) (omega arith)

readline_lem_test :
    (b : LineBuffer) × (heap : ℕ) × (readline bump (104 ∷ 105 ∷ 10 ∷ 99 ∷ []) 500
      ≡ some (b, heap, 99 ∷ []))
    × (b.bytes ≡ 104 ∷ 105 ∷ 0 ∷ [])
    × (length b.bytes ≤ b.buffer_size)
    × (b.at ≢ 0)
readline_lem_test =
    readline_lem bump plenty (λ p. p ≢ 0) plenty (104 ∷ 105 ∷ []) 10 (99 ∷ []) 500
      (refl, (refl, tt)) refl

abbrev file : TarRegData
file = record { size = 3; content = 100 }

abbrev stream : FileHandle
stream = record { node = 1; pos = 0; flags = 0; error = 0; eof = 0 }

builtin_cat_text_lem_example :
    (heap : ℕ) × (builtin_cat_text bump 4 (node_rdwr v_reg file) 50 stream memory 500
      ≡ some (some (99 ∷ 97 ∷ 116 ∷ []), heap))
unfolding bytes
builtin_cat_text_lem_example =
    builtin_cat_text_lem bump plenty 4 file 50 stream memory 500 (omega arith) refl refl
      (omega arith) (inl (omega arith))
