-- ===== src/Libk/Strings/Tokens.antt =====
-- How `strtok_r` cuts a string into tokens.
use n00b_os.Prelude.{
  ◌⊎◌, ap, ℕ, zero, suc, ◌+◌, ◌<◌, ◌≤◌, ◌≡◌, ◌≢◌, inl, inr, refl, sym, ◌∙◌, subst, Bool, true,
  false, not, Option, some, List, [], ◌∷◌, arith, length, ◌==◌, if◌then◌else◌, Bool-cases,
}
use n00b_os.Libk.Memory.{Memory, store}
use n00b_os.Libk.Strings.{strchr_from, strchr, skip, strtok_r}
use n00b_os.Libk.Strings.Laws.{IsString, IsString-frame}
use n00b_os.Libk.Strings.Runs.{
  after, is_empty, length-run-rest, occurs, rest, rest-Begun, rest-full, run, run-start, tail, word,
}

strchr_from_lem :
    (fuel : ℕ) (m : Memory) (str c i : ℕ) (ds : List ℕ)
    → IsString m (str + i) ds
    → c ≢ 0
    → str ≢ 0
    → length ds < fuel
    → (at : ℕ) × (strchr_from fuel m str c i ≡ some at) × ((at == 0) ≡ not (occurs c ds))
unfolding strchr_from
strchr_from_lem zero m str c i ds h cn sn lt = absurd (omega arith)
strchr_from_lem (suc fuel) m str c i [] h cn sn lt = (0, ground arith, refl)
strchr_from_lem (suc fuel) m str c i (d ∷ ds) h cn sn lt = elim (Bool-cases (c == d)) [
  | inl here ↦ (str + i, ground (arith, h.0, here), ground (arith, here))
  | inr on ↦
      let next : str + i + 1 ≡ str + (i + 1) = omega arith in
      let ih =
        strchr_from_lem fuel m str c (i + 1) ds (subst (λ p. IsString m p ds) next h.2) cn sn
          (omega arith) in
      (ih.0, ground (arith, h.0, h.1, on, ih.1), ground (arith, on, ih.2))
]

strchr-occurs :
    (fuel : ℕ) (m : Memory) (str c : ℕ) (ds : List ℕ)
    → IsString m str ds
    → c ≢ 0
    → str ≢ 0
    → length ds < fuel
    → (at : ℕ) × (strchr fuel m str c ≡ some at) × ((at == 0) ≡ not (occurs c ds))
unfolding strchr
strchr-occurs fuel m str c ds h cn sn lt =
    let start : str ≡ str + 0 = omega arith in
    strchr_from_lem fuel m str c 0 ds (subst (λ p. IsString m p ds) start h) cn sn lt

skip_lem :
    (fuel : ℕ) (m : Memory) (delim : ℕ) (ds : List ℕ) (found : Bool) (p : ℕ) (cs : List ℕ)
    → IsString m delim ds
    → delim ≢ 0
    → IsString m p cs
    → length cs + length ds < fuel
    → (skip fuel m delim found p ≡ some (p + length (run found ds cs)))
      × IsString m (p + length (run found ds cs)) (rest found ds cs)
unfolding skip
skip_lem zero m delim ds found p cs d dn h lt = absurd (omega arith)
skip_lem (suc fuel) m delim ds found p [] d dn h lt =
    let here : p ≡ p + 0 = omega arith in (ground arith, subst (λ q. IsString m q []) here h)
skip_lem (suc fuel) m delim ds found p (c ∷ cs) d dn h lt =
    let at = strchr-occurs (suc fuel) m delim c ds d h.1 dn (omega arith) in
    let ih = skip_lem fuel m delim ds found (p + 1) cs d dn h.2 (omega arith) in
    let on = length (run found ds cs) in
    let further : p + 1 + on ≡ p + suc on = omega arith in
    let here : p ≡ p + 0 = omega arith in
    let ended : Bool → Type 0 = λ b.
      IsString m (p + length (if b then c ∷ run found ds cs else []))
        (if b then rest found ds cs else c ∷ cs) in
    elim (Bool-cases (if occurs c ds then found else not found)) [
      | inl go ↦ (
        ground (arith, h.0, h.1, at.1, at.2, go, ih.0),
        subst ended (sym go) (subst (λ q. IsString m q (rest found ds cs)) further ih.1),
      )
      | inr stop ↦ (
        ground (arith, h.0, h.1, at.1, at.2, stop),
        subst ended (sym stop) (subst (λ q. IsString m q (c ∷ cs)) here h),
      )
    ]

run-IsString :
    (m m' : Memory) (found : Bool) (p : ℕ) (ds cs : List ℕ)
    → IsString m p cs
    → ((a : ℕ) → a < p + length (run found ds cs) → m' a ≡ m a)
    → m' (p + length (run found ds cs)) ≡ 0
    → IsString m' p (run found ds cs)
run-IsString m m' found p ds [] h same cut = ground (arith, cut)
run-IsString m m' found p ds (c ∷ cs) h same cut =
    let more = run found ds cs in
    let step : Bool → Type 0 = λ b.
      ((a : ℕ) → a < p + length (if b then c ∷ more else []) → m' a ≡ m a)
      → m' (p + length (if b then c ∷ more else [])) ≡ 0
      → IsString m' p (if b then c ∷ more else []) in
    elim (Bool-cases (if occurs c ds then found else not found)) [
      | inl go ↦
          subst step (sym go)
            (λ same cut. (
              same p (omega arith) ∙ h.0,
              h.1,
              run-IsString m m' found (p + 1) ds cs h.2 (λ a lt. same a (omega arith))
                  (ground (arith, cut)),
            ))
            same cut
      | inr stop ↦ subst step (sym stop) (λ same cut. ground (arith, cut)) same cut
    ]

-- the string `cs` at `next` follows a word that ends at `end`
abbrev pub Follows : ℕ → ℕ → List ℕ → Type 0
Follows end next cs = (next ≡ end + 1) ⊎ ((next ≡ end) × (cs ≡ []))

-- What one call leaves: the address of the word, 0 where no word is left, the place to go on from,
-- which is in the string, and the memory, in which the word is a string of its own.
abbrev pub Cut : Memory → ℕ → List ℕ → List ℕ → Option (ℕ × ℕ × Memory) → Type 0
Cut m p ds cs r =
    let start = p + length (run true ds cs) in
    (next : ℕ) × (m' : Memory) × (r
      ≡ some (if is_empty (rest true ds cs) then 0 else start, next, m'))
    × IsString m' start (word ds cs)
    × IsString m' next (after ds cs)
    × Follows (start + length (word ds cs)) next (after ds cs)
    × (next + length (after ds cs) ≤ p + length cs)
    × ((a : ℕ) → a ≢ start + length (word ds cs) → m' a ≡ m a)

-- the end of a call, where the word ends before the string `r`
close : ℕ → ℕ → Memory → ℕ × ℕ × Memory
close start end m =
    if m end == 0
    then (if start == end then 0 else start, end, m)
    else (start, end + 1, store m end 0)

close-Cut :
    (m : Memory) (p : ℕ) (ds cs r : List ℕ)
    → rest false ds (rest true ds cs) ≡ r
    → IsString m (p + length (run true ds cs)) (rest true ds cs)
    → IsString m (p + length (run true ds cs) + length (word ds cs)) r
    → Cut m p ds cs (
        some (
          close
            (p + length (run true ds cs))
            (p + length (run true ds cs) + length (word ds cs))
            m))
unfolding close
close-Cut m p ds cs [] is h k = (
  p + length (run true ds cs) + length (word ds cs),
  m,
  ground
      (arith, k, run-start ds (rest true ds cs) (p + length (run true ds cs)) (rest-Begun ds cs)),
  run-IsString m m false (p + length (run true ds cs)) ds (rest true ds cs) h (λ a lt. refl) k,
  subst (λ l. IsString m (p + length (run true ds cs) + length (word ds cs)) (tail l)) (sym is) k,
  inr (refl, ap tail is),
  ground (
    arith,
    is,
    length-run-rest true ds cs,
    length-run-rest false ds (rest true ds cs),
    ap length is,
    ap (λ l. length (tail l)) is,
  ),
  λ a ne. refl,
)
close-Cut m p ds cs (c ∷ r) is h k =
    let start = p + length (run true ds cs) in
    let end = start + length (word ds cs) in
    let m' = store m end 0 in
    let full : is_empty (rest true ds cs) ≡ false = rest-full ds (rest true ds cs) c r is in
    (
      end + 1,
      m',
      ground (arith, k.0, k.1, full),
      run-IsString m m' false start ds (rest true ds cs) h (λ a lt. ground arith) (ground arith),
      subst (λ l. IsString m' (end + 1) (tail l)) (sym is)
          (IsString-frame m m' (end + 1) r (λ a lo hi. ground arith) k.2),
      inl refl,
      ground (
        arith,
        is,
        length-run-rest true ds cs,
        length-run-rest false ds (rest true ds cs),
        ap length is,
        ap (λ l. length (tail l)) is,
      ),
      λ a ne. ground arith,
    )

-- `strtok_r`, on a string that `str` (or, where it is NULL, `*saveptr`) points at and a string of
-- delimiters at an address that is not 0, with fuel above both lengths: it skips the delimiters that
-- lead the string, answers the address of the word that follows, or 0 where there is none, and leaves
-- in memory the word as a string and, at the new `*saveptr`, what follows the delimiter that ended it.
-- It changes at most the one byte after the word.
pub strtok_r-Cut :
    (fuel : ℕ) (m : Memory) (str delim saveptr : ℕ) (ds cs : List ℕ)
    → IsString m delim ds
    → delim ≢ 0
    → IsString m (if str == 0 then saveptr else str) cs
    → length cs + length ds < fuel
    → Cut m (if str == 0 then saveptr else str) ds cs (strtok_r fuel m str delim saveptr)
unfolding strtok_r close
strtok_r-Cut fuel m str delim saveptr ds cs d dn h lt =
    let p = if str == 0 then saveptr else str in
    let one = skip_lem fuel m delim ds true p cs d dn h lt in
    let short = length-run-rest true ds cs in
    let two =
      skip_lem fuel m delim ds false (p + length (run true ds cs)) (rest true ds cs) d dn one.1
        (omega arith) in
    let ran : strtok_r fuel m str delim saveptr
        ≡ some (
            close (p + length (run true ds cs)) (p + length (run true ds cs) + length (word ds cs))
              m) =
      ground (arith, one.0, two.0) in
    subst (Cut m p ds cs) (sym ran)
      (close-Cut m p ds cs (rest false ds (rest true ds cs)) refl one.1 two.1)
