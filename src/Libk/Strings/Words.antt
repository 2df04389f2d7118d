-- ===== src/Libk/Strings/Words.antt =====
-- All words of a string, which repeated calls of `strtok_r` give one by one.
use n00b_os.Prelude.{ℕ, ◌≡◌, refl, ap, ◌∙◌, true, false, List, [], ◌∷◌, arith, if◌then◌else◌}
use n00b_os.Libk.Strings.Runs.{occurs, run, rest, tail, is_empty, word, after, rest-Begun, Begun}

abbrev pub push_word : List ℕ → List (List ℕ) → List (List ℕ)
push_word [] ws = ws
push_word (c ∷ w) ws = (c ∷ w) ∷ ws

-- the characters before the first delimiter, and the words behind it
unfoldable pub cut : List ℕ → List ℕ → List ℕ × List (List ℕ)
cut ds [] = ([], [])
cut ds (c ∷ cs) =
    let (w, ws) = cut ds cs in if occurs c ds then ([], push_word w ws) else (c ∷ w, ws)

-- the longest runs of characters that are no delimiters
unfoldable pub words : List ℕ → List ℕ → List (List ℕ)
unfolding cut
words ds cs = let (w, ws) = cut ds cs in push_word w ws

words-rest : (ds cs : List ℕ) → words ds cs ≡ words ds (rest true ds cs)
unfolding words
words-rest ds [] = refl
words-rest ds (c ∷ cs) = ground (arith, words-rest ds cs)

cut-run : (ds cs : List ℕ) → cut ds cs ≡ (run false ds cs, words ds (tail (rest false ds cs)))
unfolding words
cut-run ds [] = refl
cut-run ds (c ∷ cs) = ground (arith, cut-run ds cs)

words-Begun :
    (ds cs : List ℕ)
    → Begun ds cs
    → words ds cs
      ≡ (if is_empty cs then [] else run false ds cs ∷ words ds (tail (rest false ds cs)))
unfolding words Begun
words-Begun ds [] b = refl
words-Begun ds (c ∷ cs) b = ap (λ r. push_word r.0 r.1) (cut-run ds (c ∷ cs)) ∙ ground (arith, b)

-- The words of a string are its first word and the words of what follows, where it has a word at all.
pub words-after :
    (ds cs : List ℕ)
    → words ds cs ≡ (if is_empty (rest true ds cs) then [] else word ds cs ∷ words ds (after ds cs))
words-after ds cs = words-rest ds cs ∙ words-Begun ds (rest true ds cs) (rest-Begun ds cs)
