-- ===== src/Kernel/Shell/Turn/Tests.antt =====
-- The keys "echo hi you", with the separator at 10, the empty string at 20 and "echo" at 30.
use n00b_os.Prelude.{
  ℕ, ◌+◌, ◌-◌, ◌≤◌, ◌≡◌, refl, some, Option, [], ◌∷◌, List, arith, codes, get_or, ltb, leb, ◌==◌,
  ◌&&◌, ◌>>=◌, if◌then◌else◌,
}
use n00b_os.Libk.Memory.{Memory}
use n00b_os.Libk.Allocator.{Allocator}
use n00b_os.Libk.Printf.{Output, printed}
use n00b_os.Libk.Strings.Words.{words}
use n00b_os.Kernel.Shell.{Builtin, builtin_echo}
use n00b_os.Kernel.Shell.Line.{Gives, Inline, stored}
use n00b_os.Kernel.Shell.Turn.{echo, turn}
use n00b_os.Kernel.Shell.Turn.Text.{NoNull}
use n00b_os.Kernel.Shell.Turn.Echo.{Literals, turn_echoes}

-- blocks above 100, which are not given back
abbrev above : Allocator
above = record {
  State = ℕ;
  malloc = λ size next. (100 + next, next + size);
  free = λ p next. next;
  realloc = λ p size next. (100 + next, next + size);
}

above-Gives : Gives above (λ p. 100 ≤ p)
above-Gives = (λ size next. omega arith, λ p size next. omega arith)

abbrev memory : Memory
memory a =
    if a == 10 then 32 else if leb 30 a && ltb a 34 then get_or (codes "echo") (a - 30) 0 else 0

commands-Literals :
    Literals memory 100 10 20 ((30, builtin_echo) ∷ []) ((codes "echo", builtin_echo) ∷ [])
commands-Literals = record {
  separator_is = (refl, omega arith, refl);
  separator_below = omega arith;
  separator_set = omega arith;
  empty_is = refl;
  empty_below = omega arith;
  commands = (
    (refl, omega arith, (refl, omega arith, (refl, omega arith, (refl, omega arith, refl)))),
    refl,
    tt,
  );
  below = (omega arith, tt);
}

abbrev functions : Builtin → List ℕ → Memory → ℕ → Option (Output × Memory × ℕ)
functions b argv m heap = echo 30 m argv >>= λ out. some (out, m, heap)

typed_words :
    words (32 ∷ []) (stored (codes "echo hi  you")) ≡ codes "echo" ∷ codes "hi" ∷ codes "you" ∷ []
unfolding words
typed_words = refl

in_line : Inline (codes "echo hi  you")
in_line = (
  refl,
  (refl, (refl, (refl, (refl, (refl, (refl, (refl, (refl, (refl, (refl, (refl, tt))))))))))),
)

no_null : NoNull (stored (codes "echo hi  you"))
no_null = (
  omega arith,
  (
    omega arith,
    (
      omega arith,
      (
        omega arith,
        (
          omega arith,
          (
            omega arith,
            (
              omega arith,
              (omega arith, (omega arith, (omega arith, (omega arith, (omega arith, tt))))),
            ),
          ),
        ),
      ),
    ),
  ),
)

turn_echoes_example :
    (m' : Memory) × (heap : ℕ) × (turn above 30 10 20
        ((30, builtin_echo) ∷ [])
        functions
        (codes "echo hi  you\n")
        memory
        0
        0
      ≡ some (printed 7 (codes "hi you "), [], m', heap))
turn_echoes_example =
    turn_echoes above 100 above-Gives 30 10 20 ((30, builtin_echo) ∷ [])
      ((codes "echo", builtin_echo) ∷ []) functions (codes "echo hi  you") 10 []
      (codes "hi" ∷ codes "you" ∷ []) memory 0 0 commands-Literals refl (λ argv m heap. refl)
      in_line no_null refl typed_words (omega arith)
