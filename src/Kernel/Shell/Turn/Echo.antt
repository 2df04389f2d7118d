-- ===== src/Kernel/Shell/Turn/Echo.antt =====
-- The shell, from the keys to what `echo` prints.
use n00b_os.Prelude.{
  ◌*◌, ℕ, suc, ◌+◌, ◌<◌, ◌≤◌, ◌≡◌, ◌≢◌, refl, ◌∙◌, sym, ap, subst, inl, some, Option, true, List,
  [], ◌∷◌, ◌++◌, length, codes, arith, ◌>>=◌,
}
use n00b_os.Libk.Memory.{Memory}
use n00b_os.Libk.Allocator.{Allocator}
use n00b_os.Libk.Printf.{Output, printed}
use n00b_os.Libk.Strings.Laws.{IsString, IsString-frame}
use n00b_os.Libk.Strings.Words.{words}
use n00b_os.Kernel.Shell.{
  Builtin, builtin_echo, LineBuffer, Argv, Execution, args_buffer_size, run, execute, ends_line,
  readline, parseline,
}
use n00b_os.Kernel.Shell.Words.{Strings, Plenty, Parsed, parseline-Parsed}
use n00b_os.Kernel.Shell.Line.{Gives, Inline, stored, readline_lem}
use n00b_os.Kernel.Shell.Commands.{Commands, command, execute-command}
use n00b_os.Kernel.Shell.Turn.{echo, perform, put_bytes, turn}
use n00b_os.Kernel.Shell.Turn.Text.{
  echoed, AllShort, words-AllShort, print_each-echoed, NoNull, put_bytes-frame, put_bytes-IsString,
  Below, Commands-frame,
}

length-stored : (cs : List ℕ) → length (stored cs) ≡ length cs
length-stored [] = refl
length-stored (c ∷ cs) = ap suc (length-stored cs)

-- literals of the program: the separator " ", the empty string, and the names of the commands, all below
-- `top`
pub record Literals (m : Memory) (top separator empty : ℕ) (cmds : List (ℕ × Builtin))
    (names : List (List ℕ × Builtin)) : Type 0 where
  pub separator_is : IsString m separator (32 ∷ [])
  pub separator_below : separator + 1 < top
  pub separator_set : separator ≢ 0
  pub empty_is : IsString m empty []
  pub empty_below : empty < top
  pub commands : Commands m cmds names
  pub below : Below top cmds names

picks_echo :
    (fuel n : ℕ) (m : Memory) (empty : ℕ) (cmds : List (ℕ × Builtin))
    (names : List (List ℕ × Builtin)) (args : List ℕ) (ws : List (List ℕ))
    → Strings m args (codes "echo" ∷ ws)
    → AllShort n (codes "echo" ∷ ws)
    → IsString m empty []
    → Commands m cmds names
    → command (codes "echo") names ≡ run builtin_echo
    → n < fuel
    → (execute fuel m empty cmds args ≡ some (run builtin_echo))
      × (echo fuel m args ≡ some (printed (length (echoed ws)) (echoed ws)))
unfolding echo
picks_echo fuel n m empty cmds names [] ws h short e k known lt = absurd h
picks_echo fuel n m empty cmds names (p ∷ ps) ws h short e k known lt = (
  execute-command fuel m empty p ps (codes "echo") cmds names e h.0 k (omega (arith, short.0))
      ∙ ap some known,
  print_each-echoed fuel n m ps ws h.1 short.1 lt,
)

module _ (A : Allocator) (top : ℕ) (gives : Gives A (λ p. top ≤ p)) where
  -- `echo` with the memory and the heap as they were
  abbrev pub RunsEcho :
      ℕ → (Builtin → List ℕ → Memory → A.State → Option (Output × Memory × A.State)) → Type 0
  RunsEcho fuel builtin_func =
      (argv : List ℕ) (m : Memory) (heap : A.State)
      → builtin_func builtin_echo argv m heap ≡ (echo fuel m argv >>= λ out. some (out, m, heap))

  module _ (fuel separator empty : ℕ) (cmds : List (ℕ × Builtin)) (names : List (List ℕ × Builtin))
      (builtin_func : Builtin
        → List ℕ
        → Memory
        → A.State
        → Option (Output × Memory × A.State)) where
    -- the calls of a round, each with what it gives
    turn-calls :
        (input input' : List ℕ) (m m2 m3 : Memory) (saveptr : ℕ) (heap heap1 heap2 heap3 : A.State)
        (line : LineBuffer) (argv : Argv) (chosen : Execution) (out : Output)
        → readline A input heap ≡ some (line, heap1, input')
        → parseline A fuel separator (put_bytes A m line.at line.bytes) line.at saveptr heap1
          ≡ some (argv, heap2, m2)
        → execute fuel m2 empty cmds argv.args ≡ some chosen
        → perform A builtin_func chosen argv.args m2 heap2 ≡ some (out, m3, heap3)
        → turn A fuel separator empty cmds builtin_func input m saveptr heap
          ≡ some (out, input', m3, A.free line.at (A.free argv.at heap3))
    unfolding turn
    turn-calls input input' m m2 m3 saveptr heap heap1 heap2 heap3 line argv chosen out r p e f =
        rw (r, p, e, f) refl

    -- the round from the parsed line on
    module _ (keys input : List ℕ) (ws : List (List ℕ)) (m : Memory) (saveptr : ℕ)
        (heap heap1 : A.State) (line : LineBuffer)
        (lits : Literals m top separator empty cmds names)
        (known : command (codes "echo") names ≡ run builtin_echo)
        (runs : RunsEcho fuel builtin_func)
        (all : words (32 ∷ []) (stored keys) ≡ codes "echo" ∷ ws) (lt : length keys + 2 < fuel)
        (at : top ≤ line.at) where
      abbrev typed : Memory
      typed = put_bytes A m line.at line.bytes

      below : (a : ℕ) → a < top → typed a ≡ m a
      below a lo = put_bytes-frame A m line.at line.bytes a (omega (arith, at))

      echoes :
          (full : List ℕ)
          → readline A full heap ≡ some (line, heap1, input)
          → (argv0 : Argv) → argv0.args ≡ []
          → (plenty : Plenty A)
          → Parsed A plenty typed line.at
              (32 ∷ [])
              (stored keys)
              argv0
              (parseline A fuel separator typed line.at saveptr heap1)
          → (m' : Memory) × (heap' : A.State) × (turn A fuel separator empty cmds builtin_func full
                m saveptr heap
              ≡ some (printed (length (echoed ws)) (echoed ws), input, m', heap'))
      unfolding perform
      echoes full read argv0 none plenty
            (more, argv, heap2, m2, cut, args, room, strings, low, end) =
          let below2 : (a : ℕ) → a < top → m2 a ≡ m a =
            λ a lo. low a (omega (arith, at)) ∙ below a lo in
          let args' : argv.args ≡ more = args ∙ ap (λ l. l ++ more) none in
          let picked =
            picks_echo fuel (length (stored keys)) m2 empty cmds names argv.args ws
              (subst (λ l. Strings m2 l (codes "echo" ∷ ws)) (sym args')
                (subst (Strings m2 more) all strings))
              (subst (AllShort (length (stored keys))) all (words-AllShort (32 ∷ []) (stored keys)))
              (below2 empty lits.empty_below ∙ lits.empty_is)
              (Commands-frame m m2 top cmds names below2 lits.below lits.commands) known
              (omega (arith, length-stored keys)) in
          (
            m2,
            A.free line.at (A.free argv.at heap2),
            turn-calls full input m m2 m2 saveptr heap heap1 heap2 heap2 line argv
                (run builtin_echo) (printed (length (echoed ws)) (echoed ws)) read cut picked.0
                (runs argv.args m2 heap2 ∙ ap (λ o. o >>= λ x. some (x, m2, heap2)) picked.1),
          )

    -- A round of `test_shell` prints, for a line of which "echo" is the first word, the other words of the line
    -- in their order, each with a space behind it. The line has no 0 in it, the literals of the program lie
    -- below `top` and the blocks of the allocator, which gives one for each call, above; the fuel is three
    -- more than the length of the line.
    pub turn_echoes :
        (keys : List ℕ) (last : ℕ) (input : List ℕ) (ws : List (List ℕ)) (m : Memory) (saveptr : ℕ)
        (heap : A.State)
        → Literals m top separator empty cmds names
        → command (codes "echo") names ≡ run builtin_echo
        → RunsEcho fuel builtin_func
        → Inline keys
        → NoNull (stored keys)
        → ends_line last ≡ true
        → words (32 ∷ []) (stored keys) ≡ codes "echo" ∷ ws
        → length keys + 2 < fuel
        → (m' : Memory) × (heap' : A.State) × (turn A fuel separator empty cmds builtin_func
              (keys ++ (last ∷ input))
              m
              saveptr
              heap
            ≡ some (printed (length (echoed ws)) (echoed ws), input, m', heap'))
    turn_echoes keys last input ws m saveptr heap lits known runs inline no_null ends all lt =
        let plenty : Plenty A = (
          λ size heap' e. omega (arith, gives.0 size heap', lits.empty_below, e),
          λ p size heap' e. omega (arith, gives.1 p size heap', lits.empty_below, e),
        ) in
        let (b, heap1, read, content, _, at) =
          readline_lem A plenty (λ p. top ≤ p) gives keys last input heap inline ends in
        let m1 = put_bytes A m b.at b.bytes in
        let line : IsString m1 b.at (stored keys) =
          subst (λ l. IsString (put_bytes A m b.at l) b.at (stored keys)) (sym content)
            (put_bytes-IsString A m b.at (stored keys) no_null) in
        let low = below keys input ws m saveptr heap heap1 b lits known runs all lt at in
        echoes keys input ws m saveptr heap heap1 b lits known runs all lt at
          (keys ++ (last ∷ input)) read
          (record {
            at = (A.malloc (args_buffer_size * 4) heap1).0;
            args = [];
            args_size = args_buffer_size;
          })
          refl plenty
          (parseline-Parsed A plenty fuel separator m1 b.at saveptr (32 ∷ []) (stored keys) heap1
            line (omega (arith, at, lits.empty_below))
            (IsString-frame m m1 separator (32 ∷ [])
              (λ a lo hi. low a (omega (arith, lits.separator_below))) lits.separator_is)
            lits.separator_set (inl (omega (arith, at, lits.separator_below)))
            (omega (arith, length-stored keys)))
