-- ===== src/Kernel/Shell/Commands.antt =====
-- `execute` picks the command by its name.
use n00b_os.Prelude.{ℕ, ◌<◌, ◌≡◌, refl, some, List, [], ◌∷◌, arith, length, if◌then◌else◌}
use n00b_os.Libk.Memory.{Memory}
use n00b_os.Libk.Strings.Laws.{IsString}
use n00b_os.Libk.Strings.Same.{same_name, strcmp-same_name}
use n00b_os.Kernel.Shell.{
  Builtin, Execution, no_command, run, invalid_command, find_builtin, execute,
}

-- the names of the commands stand in memory
abbrev pub Commands : Memory → List (ℕ × Builtin) → List (List ℕ × Builtin) → Type 0
Commands m [] [] = Unit
Commands m [] (n ∷ names) = ⊥
Commands m (c ∷ cmds) [] = ⊥
Commands m (c ∷ cmds) (n ∷ names) = IsString m c.0 n.0 × (c.1 ≡ n.1) × Commands m cmds names

abbrev pub command : List ℕ → List (List ℕ × Builtin) → Execution
command cs [] = invalid_command
command cs (n ∷ names) = if same_name cs n.0 then run n.1 else command cs names

find_builtin-command :
    (fuel : ℕ) (m : Memory) (arg : ℕ) (cs : List ℕ) (cmds : List (ℕ × Builtin))
    (names : List (List ℕ × Builtin))
    → IsString m arg cs
    → Commands m cmds names
    → length cs < fuel
    → find_builtin fuel m arg cmds ≡ some (command cs names)
unfolding find_builtin
find_builtin-command fuel m arg cs [] [] h k lt = refl
find_builtin-command fuel m arg cs [] (n ∷ names) h k lt = absurd k
find_builtin-command fuel m arg cs (c ∷ cmds) [] h k lt = absurd k
find_builtin-command fuel m arg cs (c ∷ cmds) (n ∷ names) h k lt =
    let ih = find_builtin-command fuel m arg cs cmds names h k.2 lt in
    let met = strcmp-same_name fuel m arg c.0 cs n.0 h k.0 lt in
    ground (arith, met.1, met.2, ih, k.1)

-- `execute`, where the first argument is the string `cs`, with fuel above its length: it does nothing for
-- an empty one, else it runs the first command of that name, or says that there is none.
pub execute-command :
    (fuel : ℕ) (m : Memory) (empty arg : ℕ) (args : List ℕ) (cs : List ℕ)
    (cmds : List (ℕ × Builtin)) (names : List (List ℕ × Builtin))
    → IsString m empty []
    → IsString m arg cs
    → Commands m cmds names
    → length cs < fuel
    → execute fuel m empty cmds (arg ∷ args)
      ≡ some (if same_name cs [] then no_command else command cs names)
unfolding execute
execute-command fuel m empty arg args cs cmds names e h k lt =
    let met = strcmp-same_name fuel m arg empty cs [] h e lt in
    ground (arith, met.1, met.2, find_builtin-command fuel m arg cs cmds names h k lt)
