-- ===== src/Kernel/Shell/Words.antt =====
-- `parseline` gives the words of the line.
use n00b_os.Prelude.{
  false, ℕ, zero, suc, ◌+◌, ◌*◌, ◌<◌, ◌≤◌, ◌≡◌, ◌≢◌, inl, inr, refl, sym, ap, ◌∙◌, subst, true,
  Bool-cases, Option, some, List, [], ◌∷◌, ◌++◌, append-nil, append_assoc, arith, length,
  length-append, ◌==◌, if◌then◌else◌,
}
use n00b_os.Libk.Memory.{Memory, Apart}
use n00b_os.Libk.Allocator.{Allocator}
use n00b_os.Libk.Strings.{strtok_r}
use n00b_os.Libk.Strings.Laws.{IsString, IsString-frame}
use n00b_os.Libk.Strings.Runs.{run, rest, word, after, is_empty, word-full, word-inside}
use n00b_os.Libk.Strings.Tokens.{Cut, Follows, strtok_r-Cut}
use n00b_os.Libk.Strings.Words.{words, words-after}
use n00b_os.Kernel.Shell.{Argv, args_buffer_size, put_arg, parse_args, parseline}

-- the strings at these addresses
abbrev pub Strings : Memory → List ℕ → List (List ℕ) → Type 0
Strings m [] [] = Unit
Strings m [] (w ∷ ws) = ⊥
Strings m (a ∷ as') [] = ⊥
Strings m (a ∷ as') (w ∷ ws) = IsString m a w × Strings m as' ws

IsString-end : (m : Memory) (p : ℕ) (cs : List ℕ) → IsString m p cs → m (p + length cs) ≡ 0
IsString-end m p [] h = ground (arith, h)
IsString-end m p (c ∷ cs) h = ground (arith, IsString-end m (p + 1) cs h.2)

word-nil :
    (m : Memory) (p : ℕ) (ds cs : List ℕ)
    → IsString m (p + length (run true ds cs)) (word ds cs)
    → cs ≡ []
    → m p ≡ 0
word-nil m p ds [] h nil = ground (arith, h)
word-nil m p ds (c ∷ cs) h nil = ground (arith, nil)

-- a word stays in memory when what comes before `next` does, and the end of the string
kept :
    (m m' : Memory) (start a next : ℕ) (w cs : List ℕ)
    → IsString m start w
    → Follows (start + length w) next cs
    → (a < next → m' a ≡ m a)
    → (cs ≡ [] → m' next ≡ 0)
    → a ≤ start + length w
    → m' a ≡ m a
kept m m' start a next w cs h (inl at) same nil le = same (omega arith)
kept m m' start a next w cs h (inr last) same nil le = elim (Bool-cases (a == next)) [
  | inl here ↦ ground (arith, here, last.0, nil last.1, IsString-end m start w h)
  | inr before ↦ same (ground (arith, before, last.0))
]

-- memory never runs out
abbrev pub Plenty : Allocator → Type 0
Plenty A =
    ((size : ℕ) (heap : A.State) → (A.malloc size heap).0 ≢ 0)
    × ((p size : ℕ) (heap : A.State) → (A.realloc p size heap).0 ≢ 0)

module _ (A : Allocator) (plenty : Plenty A) where
  put_arg_lem :
      (argv : Argv) (arg : ℕ) (heap : A.State)
      → length argv.args < argv.args_size
      → (argv' : Argv) × (heap' : A.State) × (put_arg A argv arg heap ≡ some (argv', heap'))
        × (argv'.args ≡ argv.args ++ (arg ∷ []))
        × (length argv'.args < argv'.args_size)
  unfolding put_arg
  put_arg_lem argv arg heap room =
      let args = argv.args ++ (arg ∷ []) in
      let more = length-append argv.args (arg ∷ []) in
      let size = argv.args_size + 4 in
      let got = A.realloc argv.at (size * 4) heap in
      elim (Bool-cases (length args == argv.args_size)) [
        | inl full ↦ (
          record { at = got.0; args = args; args_size = size },
          got.1,
          ground (arith, full, plenty.1 argv.at (size * 4) heap),
          refl,
          ground (arith, full),
        )
        | inr free ↦ (
          record argv { args = args },
          heap,
          ground (arith, free),
          refl,
          ground (arith, free, more),
        )
      ]

  -- what the loop gives from a string `cs` at `p` on
  abbrev pub Parsed :
      Memory → ℕ → List ℕ → List ℕ → Argv → Option (Argv × A.State × Memory) → Type 0
  Parsed m p ds cs argv r =
      (more : List ℕ) × (argv' : Argv) × (heap' : A.State) × (m' : Memory) × (r
        ≡ some (argv', heap', m'))
      × (argv'.args ≡ argv.args ++ more)
      × (length argv'.args < argv'.args_size)
      × Strings m' more (words ds cs)
      × ((a : ℕ) → a < p → m' a ≡ m a)
      × (cs ≡ [] → m' p ≡ 0)

  -- one more word, and those that a later call finds
  one_more :
      (m : Memory) (p : ℕ) (ds cs : List ℕ) (argv argv1 : Argv) {cut : Option (ℕ × ℕ × Memory)}
      (c : Cut m p ds cs cut) {r : Option (Argv × A.State × Memory)}
      → is_empty (rest true ds cs) ≡ false
      → argv1.args ≡ argv.args ++ ((p + length (run true ds cs)) ∷ [])
      → Parsed c.1 c.0 ds (after ds cs) argv1 r
      → Parsed m p ds cs argv r
  one_more m p ds cs argv argv1 c left grown ih =
      let start = p + length (run true ds cs) in
      let all =
        words-after ds cs ∙ ap (λ b. if b then [] else word ds cs ∷ words ds (after ds cs)) left in
      let first =
        IsString-frame c.1 ih.3 start (word ds cs)
          (λ a lo hi. kept c.1 ih.3 start a c.0 (word ds cs) (after ds cs) c.3 c.5 (ih.8 a) ih.9 hi)
          c.3 in
      (
        start ∷ ih.0,
        ih.1,
        ih.2,
        ih.3,
        ih.4,
        ih.5 ∙ ap (λ l. l ++ ih.0) grown ∙ append_assoc argv.args (start ∷ []) ih.0,
        ih.6,
        subst (Strings ih.3 (start ∷ ih.0)) (sym all) (first, ih.7),
        λ a below. ih.8 a (ground (arith, c.5)) ∙ c.7 a (omega arith),
        λ nil. ground (arith, left, ap (λ l. is_empty (rest true ds l)) nil),
      )

  parse_args-words :
      (fuel separator : ℕ) (m : Memory) (str saveptr : ℕ) (ds cs : List ℕ) (argv : Argv)
      (heap : A.State)
      → (p : ℕ) → p ≡ (if str == 0 then saveptr else str)
      → IsString m p cs
      → p ≢ 0
      → IsString m separator ds
      → separator ≢ 0
      → Apart separator (length ds + 1) p (length cs + 1)
      → length cs + length ds + 1 < fuel
      → length argv.args < argv.args_size
      → Parsed m p ds cs argv (parse_args A fuel separator m str saveptr argv heap)
  unfolding parse_args
  parse_args-words zero separator m str saveptr ds cs argv heap p at h pn s sn apart lt room =
      absurd (omega arith)
  parse_args-words (suc fuel) separator m str saveptr ds cs argv heap p at h pn s sn apart lt room =
      let c0 =
        strtok_r-Cut fuel m str separator saveptr ds cs s sn (subst (λ q. IsString m q cs) at h)
          (omega arith) in
      let c = subst (λ q. Cut m q ds cs (strtok_r fuel m str separator saveptr)) (sym at) c0 in
      let put = put_arg_lem argv (p + length (run true ds cs)) heap room in
      elim (Bool-cases (is_empty (rest true ds cs))) [
        | inl none_left ↦ (
          [],
          argv,
          heap,
          c.1,
          ground (arith, c.2, none_left),
          sym (append-nil argv.args),
          room,
          subst (Strings c.1 [])
              (sym (
                words-after ds cs
                ∙ ap (λ b. if b then [] else word ds cs ∷ words ds (after ds cs)) none_left))
              tt,
          λ a below. c.7 a (omega arith),
          λ nil. word-nil c.1 p ds cs c.3 nil,
        )
        | inr left ↦
            let size = word-full ds cs left in
            let inside = word-inside ds cs in
            let ih =
              parse_args-words fuel separator c.1 0 c.0 ds (after ds cs) put.0 put.1 c.0 refl c.4
                (ground (arith, c.5))
                (IsString-frame m c.1 separator ds (λ a lo hi. c.7 a (ground (arith, apart))) s) sn
                (ground (arith, apart, c.5, c.6)) (ground (arith, c.5, c.6)) put.4 in
            let step : parse_args A (suc fuel) separator m str saveptr argv heap
                ≡ parse_args A fuel separator c.1 0 c.0 put.0 put.1 =
              ground (arith, c.2, left, put.2) in
            subst (Parsed m p ds cs argv) (sym step) (one_more m p ds cs argv put.0 c left put.3 ih)
      ]

  pub parseline-Parsed :
      (fuel separator : ℕ) (m : Memory) (line saveptr : ℕ) (ds cs : List ℕ) (heap : A.State)
      → IsString m line cs
      → line ≢ 0
      → IsString m separator ds
      → separator ≢ 0
      → Apart separator (length ds + 1) line (length cs + 1)
      → length cs + length ds + 1 < fuel
      → Parsed m line ds cs
          (record {
            at = (A.malloc (args_buffer_size * 4) heap).0;
            args = [];
            args_size = args_buffer_size;
          })
          (parseline A fuel separator m line saveptr heap)
  unfolding parseline
  parseline-Parsed fuel separator m line saveptr ds cs heap h ln s sn apart lt =
      let got = A.malloc (args_buffer_size * 4) heap in
      let empty : Argv = record { at = got.0; args = []; args_size = args_buffer_size } in
      let parsed =
        parse_args-words fuel separator m line saveptr ds cs empty got.1 line (ground arith) h ln s
          sn apart lt (omega arith) in
      subst (Parsed m line ds cs empty) (ground (arith, plenty.0 (args_buffer_size * 4) heap))
        parsed

  -- `parseline`, on a line and a string of separators that lie apart at addresses that are not 0, with
  -- fuel two above both lengths and where memory does not run out: it ends with the words of the line in
  -- `argv`, in their order, each a string in memory, and in `argv` there is room for one more.
  pub parseline-words :
      (fuel separator : ℕ) (m : Memory) (line saveptr : ℕ) (ds cs : List ℕ) (heap : A.State)
      → IsString m line cs
      → line ≢ 0
      → IsString m separator ds
      → separator ≢ 0
      → Apart separator (length ds + 1) line (length cs + 1)
      → length cs + length ds + 1 < fuel
      → (argv : Argv) × (heap' : A.State) × (m' : Memory) × (parseline A fuel separator m line
            saveptr heap
          ≡ some (argv, heap', m'))
        × Strings m' argv.args (words ds cs)
        × (length argv.args < argv.args_size)
  parseline-words fuel separator m line saveptr ds cs heap h ln s sn apart lt =
      let parsed = parseline-Parsed fuel separator m line saveptr ds cs heap h ln s sn apart lt in
      (
        parsed.1,
        parsed.2,
        parsed.3,
        parsed.4,
        subst (λ args. Strings parsed.3 args (words ds cs)) (sym parsed.5) parsed.7,
        parsed.6,
      )
