-- ===== src/Kernel/Shell/Turn/Text.antt =====
-- Texts in memory: those that a command prints, and the line that was typed.
use n00b_os.Prelude.{
  ap₂, none, either_way, ℕ, zero, suc, ◌+◌, ◌<◌, ◌≤◌, ◌≡◌, ◌≢◌, refl, ◌∙◌, ap, some, Option, List,
  [], ◌∷◌, ◌++◌, length, length-append, codes, arith,
}
use mathlib.Core.Option
use n00b_os.Libk.Memory.{Memory, store}
use n00b_os.Libk.Printf.{Output, printed, text, printf, then_put}
use n00b_os.Libk.Printf.Text.{printf_word}
use n00b_os.Libk.Strings.Laws.{IsString, IsString-frame}
use n00b_os.Libk.Strings.Runs.{occurs}
use n00b_os.Libk.Strings.Words.{push_word, cut, words}
use n00b_os.Libk.Allocator.{Allocator}
use n00b_os.Kernel.Shell.{Builtin}
use n00b_os.Kernel.Shell.Words.{Strings}
use n00b_os.Kernel.Shell.Commands.{Commands}
use n00b_os.Kernel.Shell.Turn.{text_at, print_each, put_bytes}

text_at_lem :
    (fuel : ℕ) (m : Memory) (p : ℕ) (cs : List ℕ)
    → IsString m p cs
    → length cs < fuel
    → text_at fuel m p ≡ some cs
unfolding text_at
text_at_lem zero m p cs h lt = absurd (omega arith)
text_at_lem (suc fuel) m p [] h lt = ground arith
text_at_lem (suc fuel) m p (c ∷ cs) h lt = ground (arith, text_at_lem fuel m (p + 1) cs h.2)

-- what `echo` prints: each word and a space
abbrev pub echoed : List (List ℕ) → List ℕ
echoed [] = []
echoed (w ∷ ws) = (w ++ (32 ∷ [])) ++ echoed ws

abbrev pub AllShort : ℕ → List (List ℕ) → Type 0
AllShort n [] = Unit
AllShort n (w ∷ ws) = (length w ≤ n) × AllShort n ws

pub print_each-echoed :
    (fuel n : ℕ) (m : Memory) (ps : List ℕ) (ws : List (List ℕ))
    → Strings m ps ws
    → AllShort n ws
    → n < fuel
    → print_each fuel m (codes "%s ") ps ≡ some (printed (length (echoed ws)) (echoed ws))
unfolding print_each
print_each-echoed fuel n m [] [] h short lt = refl
print_each-echoed fuel n m [] (w ∷ ws) h short lt = absurd h
print_each-echoed fuel n m (p ∷ ps) [] h short lt = absurd h
print_each-echoed fuel n m (p ∷ ps) (w ∷ ws) h short lt =
    let rest = print_each-echoed fuel n m ps ws h.1 short.1 lt in
    let here = text_at_lem fuel m p w h.0 (omega (arith, short.0)) in
    let counted : length w + 1 + length (echoed ws) ≡ length ((w ++ (32 ∷ [])) ++ echoed ws) =
      omega (arith, length-append w (32 ∷ []), length-append (w ++ (32 ∷ [])) (echoed ws)) in
    let step : Option (List ℕ) → Option Output → Option Output = λ o r. elim o [
      | none ↦ none
      | some cs ↦ Option.map (λ out. then_put (printf (codes "%s ") (text cs ∷ [])) out) r
    ] in
    ap₂ step here rest
    ∙ ap (λ o. some (then_put o (printed (length (echoed ws)) (echoed ws)))) (printf_word w)
    ∙ ap (λ k. some (printed k ((w ++ (32 ∷ [])) ++ echoed ws))) counted

AllShort-mono : (n k : ℕ) (ws : List (List ℕ)) → n ≤ k → AllShort n ws → AllShort k ws
AllShort-mono n k [] le h = tt
AllShort-mono n k (w ∷ ws) le h = (omega (arith, h.0), AllShort-mono n k ws le h.1)

AllShort-push_word :
    (n : ℕ) (w : List ℕ) (ws : List (List ℕ))
    → length w ≤ n
    → AllShort n ws
    → AllShort n (push_word w ws)
AllShort-push_word n [] ws lt h = h
AllShort-push_word n (c ∷ w) ws lt h = (lt, h)

cut-AllShort :
    (ds cs : List ℕ) → (length (cut ds cs).0 ≤ length cs) × AllShort (length cs) (cut ds cs).1
unfolding cut
cut-AllShort ds [] = (omega arith, tt)
cut-AllShort ds (c ∷ cs) =
    let (w, ws) = cut ds cs in
    let ih = cut-AllShort ds cs in
    let more = AllShort-mono (length cs) (suc (length cs)) ws (omega arith) ih.1 in
    either_way
      (λ (r : List ℕ × List (List ℕ)).
        (length r.0 ≤ suc (length cs)) × AllShort (suc (length cs)) r.1)
      (occurs c ds)
      (λ _. (omega arith, AllShort-push_word (suc (length cs)) w ws (omega (arith, ih.0)) more))
      (λ _. (omega (arith, ih.0), more))

-- No word is longer than the string.
pub words-AllShort : (ds cs : List ℕ) → AllShort (length cs) (words ds cs)
unfolding words
words-AllShort ds cs =
    AllShort-push_word (length cs) (cut ds cs).0 (cut ds cs).1 (cut-AllShort ds cs).0
      (cut-AllShort ds cs).1

abbrev pub NoNull : List ℕ → Type 0
NoNull [] = Unit
NoNull (c ∷ cs) = (c ≢ 0) × NoNull cs

module _ (A : Allocator) where
  pub put_bytes-frame :
      (m : Memory) (p : ℕ) (cs : List ℕ) (a : ℕ) → a < p → put_bytes A m p cs a ≡ m a
  unfolding put_bytes
  put_bytes-frame m p [] a lt = refl
  put_bytes-frame m p (c ∷ cs) a lt =
      put_bytes-frame (store m p c) (p + 1) cs a (omega arith) ∙ ground arith

  pub put_bytes-IsString :
      (m : Memory) (p : ℕ) (cs : List ℕ)
      → NoNull cs
      → IsString (put_bytes A m p (cs ++ (0 ∷ []))) p cs
  unfolding put_bytes
  put_bytes-IsString m p [] h = ground arith
  put_bytes-IsString m p (c ∷ cs) h = (
    put_bytes-frame (store m p c) (p + 1) (cs ++ (0 ∷ [])) p (omega arith) ∙ ground arith,
    h.0,
    put_bytes-IsString (store m p c) (p + 1) cs h.1,
  )

-- the names of the commands lie below `top`
abbrev pub Below : ℕ → List (ℕ × Builtin) → List (List ℕ × Builtin) → Type 0
Below top [] names = Unit
Below top (c ∷ cmds) [] = Unit
Below top (c ∷ cmds) (n ∷ names) = (c.0 + length n.0 < top) × Below top cmds names

pub Commands-frame :
    (m m' : Memory) (top : ℕ) (cmds : List (ℕ × Builtin)) (names : List (List ℕ × Builtin))
    → ((a : ℕ) → a < top → m' a ≡ m a)
    → Below top cmds names
    → Commands m cmds names
    → Commands m' cmds names
Commands-frame m m' top [] [] same b h = tt
Commands-frame m m' top [] (n ∷ names) same b h = h
Commands-frame m m' top (c ∷ cmds) [] same b h = h
Commands-frame m m' top (c ∷ cmds) (n ∷ names) same b h = (
  IsString-frame m m' c.0 n.0 (λ a lo hi. same a (omega (arith, b.0))) h.0,
  h.1,
  Commands-frame m m' top cmds names same b.1 h.2,
)
