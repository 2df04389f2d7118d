-- ===== src/Kernel/Tarfs/Parent.antt =====
-- `lookup_parent` follows a path up to its last name.
mod Tests
use n00b_os.Prelude.{
  ℕ, zero, suc, ◌+◌, ◌-◌, ◌%◌, ◌^◌, ◌<◌, ◌≤◌, ◌≡◌, ◌≢◌, ◌⊎◌, inl, inr, refl, sym, ap, ◌∙◌, subst,
  Bool, true, false, Bool-cases, Option, Option-cases, none, some, List, [], ◌∷◌, ◌++◌, arith,
  length, ◌==◌, ltb, if◌then◌else◌, ℤ, pos, minus_one, is_zero,
}
use n00b_os.Libk.Memory.{Memory, store, Apart}
use n00b_os.Libk.Allocator.{Allocator}
use n00b_os.Libk.Strings.{strlen, strcpy}
use n00b_os.Libk.Strings.Laws.{IsString, strlen_lem, strcpy-Copied}
use n00b_os.Kernel.Vfs.Path.{looked_up, SameOutside, SameOutside-trans}
use n00b_os.Kernel.Tarfs.Nodes.{TarFs, node_lookup_at}
use n00b_os.Kernel.Tarfs.Mount.{Places, copy_name, next_name, walk, lookup_parent}
use n00b_os.Kernel.Tarfs.Names.{
  Name, Names, names_length, Name-frame, Names-frame, Ends, Ends-length, Names-last,
}
use n00b_os.Kernel.Tarfs.CopyName.{copy_name_lem, NameCopied}

-- from a node on along all names but the last: the error, the node, and the name that is reached
abbrev pub walked : (ℕ → List ℕ → Option ℕ) → ℕ → List ℕ → List (List ℕ) → ℤ × ℕ × List ℕ
walked find node s [] = (pos 0, node, s)
walked find node s (t ∷ ss) = elim (find node s) [
  | none ↦ (minus_one, node, s)
  | some next ↦ walked find next t ss
]

-- Wherever a memory holds the directories, `node_lookup` finds what `find` finds, for names shorter than `n`
-- and fuel above `limit`; and writing in the block of `n` bytes at `nm` leaves the directories.
pub record Finds (A : Allocator) (fs : TarFs A) (find : ℕ → List ℕ → Option ℕ)
    (Holds : Memory → Type 0) (limit nm n : ℕ) : Type 0 where
  pub node_lookup-find :
      (fuel : ℕ) (m : Memory) (node : ℕ) (cs : List ℕ)
      → Holds m
      → IsString m nm cs
      → length cs < n
      → limit < fuel
      → node_lookup_at A fuel (record fs { memory = m }) node nm node
        ≡ some (looked_up node (find node cs))
  pub stay : (m m' : Memory) → Holds m → SameOutside nm n m m' → Holds m'

module _ (A : Allocator) (fs : TarFs A) (find : ℕ → List ℕ → Option ℕ) (Holds : Memory → Type 0)
    (limit nm n : ℕ) (finds : Finds A fs find Holds limit nm n) where
  next_name_lem :
      (m : Memory) (len path index : ℕ) (s : List ℕ)
      → Name m (path + index) s
      → (len - index ≡ length s) ⊎ ((length s < len - index) × (m (path + index + length s) ≡ 47))
      → Apart nm n (path + index) (length s + 1)
      → length s < n
      → (m' : Memory) × (next_name A len (record fs { memory = m }) path nm index
          ≡ (index + length s, record fs { memory = m' }))
        × IsString m' nm s
        × SameOutside nm n m m'
  unfolding next_name NameCopied
  next_name_lem m len path index s h end apart short =
      let r = copy_name (len - index) m path nm 0 index in
      let c = copy_name_lem (len - index) m path nm 0 index s h end (ground (arith, apart)) in
      let m' = store r.2 (nm + r.1) 0 in
      let start : nm + 0 ≡ nm = omega arith in
      (
        m',
        ap (λ i. (i, record fs { memory = m' })) c.0,
        subst (λ p. IsString m' p s) start c.2,
        λ a out. ground (arith, out, c.1, c.3 a),
      )

  walk-walked :
      (ss : List (List ℕ)) (fuel : ℕ) (m : Memory) (len path current index : ℕ) (s : List ℕ)
      → Names m (path + index) s ss
      → index + names_length s ss ≡ len
      → Ends s ss
      → names_length s ss < n
      → Apart nm n (path + index) (names_length s ss + 1)
      → Holds m
      → length ss + limit + 1 < fuel
      → let w = walked find current s ss in
        (m' : Memory) × (walk A fuel (record fs { memory = m }) len path nm current index
          ≡ some (w.0, w.1, record fs { memory = m' }))
        × IsString m' nm w.2
        × SameOutside nm n m m'
  unfolding walk
  walk-walked ss zero m len path current index s h at ends short apart holds lt =
      absurd (omega arith)
  walk-walked [] (suc fuel) m len path current index s h at ends short apart holds lt =
      let c = next_name_lem m len path index s h (inl (omega arith)) apart short in
      (c.0, ground (arith, c.1), c.2, c.3)
  walk-walked (t ∷ ss) (suc fuel) m len path current index s h at ends short apart holds lt =
      let more = Ends-length t ss ends in
      let c =
        next_name_lem m len path index s h.0 (inr (omega arith, h.1)) (ground (arith, apart))
          (omega arith) in
      let holds' = finds.stay m c.0 holds c.3 in
      let met = finds.node_lookup-find fuel c.0 current s holds' c.2 (omega arith) (omega arith) in
      let Left : ℤ × ℕ × List ℕ → Type 0 = λ w.
        (m' : Memory) × (walk A (suc fuel) (record fs { memory = m }) len path nm current index
          ≡ some (w.0, w.1, record fs { memory = m' }))
        × IsString m' nm w.2
        × SameOutside nm n m m' in
      elim (Option-cases (find current s)) [
        | inl no_node ↦
            let here : walked find current s (t ∷ ss) ≡ (minus_one, current, s) =
              ap
                (λ o. elim o [ none ↦ (minus_one, current, s) | some next ↦ walked find next t ss ])
                no_node in
            subst Left (sym here) (c.0, ground (arith, c.1, met, no_node), c.2, c.3)
        | inr next ↦
            let on : path + index + length s + 1 ≡ path + (index + length s + 1) = omega arith in
            let there = subst (λ p. Names m p t ss) on h.2 in
            let ih =
              walk-walked ss fuel c.0 len path next.0 (index + length s + 1) t
                (Names-frame m c.0 (path + (index + length s + 1)) (names_length t ss) t ss
                  (omega arith) (λ a lo hi. c.3 a (ground (arith, apart))) there)
                (omega arith) ends (omega arith) (ground (arith, apart)) holds' (omega arith) in
            let here : walked find current s (t ∷ ss) ≡ walked find next.0 t ss =
              ap
                (λ o. elim o [ none ↦ (minus_one, current, s) | some next ↦ walked find next t ss ])
                next.1 in
            subst Left (sym here) (
              ih.0,
              ground (arith, c.1, met, next.1, ih.1, more),
              ih.2,
              SameOutside-trans nm n m c.0 ih.0 c.3 ih.3,
            )
      ]

-- the walk succeeds or fails with -1, and the name that it reaches is no longer than the path
walked-cases :
    (find : ℕ → List ℕ → Option ℕ) (node : ℕ) (s : List ℕ) (ss : List (List ℕ))
    → (((walked find node s ss).0 ≡ pos 0) ⊎ ((walked find node s ss).0 ≡ minus_one))
      × (length (walked find node s ss).2 ≤ names_length s ss)
walked-cases find node s [] = (inl refl, omega arith)
walked-cases find node s (t ∷ ss) =
    let Fits : ℤ × ℕ × List ℕ → Type 0 =
      λ r. ((r.0 ≡ pos 0) ⊎ (r.0 ≡ minus_one)) × (length r.2 ≤ length s + 1 + names_length t ss) in
    let next : Option ℕ → ℤ × ℕ × List ℕ =
      λ o. elim o [ none ↦ (minus_one, node, s) | some next ↦ walked find next t ss ] in
    elim (Option-cases (find node s)) [
      | inl no_node ↦ subst Fits (sym (ap next no_node)) (inr refl, omega arith)
      | inr found ↦
          let ih = walked-cases find found.0 t ss in
          subst Fits (sym (ap next found.1)) (ih.0, omega (arith, ih.1))
    ]

-- `lookup_parent` of a path with the names `s` and `ss`, the last not empty, and perhaps a final "/", where
-- lookups find what `find` finds, the arrays `nm` of the caller and of `lookup_parent` lie apart from each
-- other and the latter from the path, and given enough fuel: it follows all names but the last from the
-- root and answers the node that it reaches, with the last name in the caller's array; or it returns -1
-- where a name on the way is not found, which then stands in its own array.
pub lookup_parent-walked :
    (A : Allocator) (fs : TarFs A) (find : ℕ → List ℕ → Option ℕ) (Holds : Memory → Type 0)
    (limit n fuel : ℕ) (at : Places) (m : Memory) (root path name : ℕ) (s : List ℕ)
    (ss : List (List ℕ)) (cs : List ℕ)
    → Finds A fs find Holds limit at.segment n
    → Names m path s ss
    → Ends s ss
    → IsString m path cs
    → (length cs ≡ names_length s ss)
      ⊎ ((length cs ≡ names_length s ss + 1) × (m (path + names_length s ss) ≡ 47))
    → names_length s ss < n
    → path + length cs < 2 ^ 32
    → Apart at.segment n path (names_length s ss + 1)
    → Apart name n at.segment n
    → Holds m
    → length ss + limit + 1 < fuel
    → n + 1 < fuel
    → let w = walked find root s ss in
      (m' : Memory) × (lookup_parent A fuel at (record fs { memory = m }) root path name
        ≡ some (w.0, if is_zero w.0 then w.1 else root, record fs { memory = m' }))
      × IsString m' (if is_zero w.0 then name else at.segment) w.2
unfolding lookup_parent
lookup_parent-walked A fs find Holds limit n fuel at m root path name s ss cs finds names ends
      string slash short high apart out holds lt ln =
    let more = Ends-length s ss ends in
    let last = Names-last m path s ss names ends in
    let measured = strlen_lem fuel m path cs string (omega arith) in
    let before : (path + length cs + 2 ^ 32 - 1) % 2 ^ 32 ≡ path + length cs - 1 = omega arith in
    let len : (if m ((path + length cs + 2 ^ 32 - 1) % 2 ^ 32) == 47
          then length cs - 1
          else length cs)
        ≡ names_length s ss =
      elim slash [
        | inl e ↦ ground (arith, ap m before, ap (λ k. m (path + k - 1)) e, last, e)
        | inr e ↦
            let there : path + length cs - 1 ≡ path + names_length s ss = omega (arith, e.0) in
            ground (arith, ap m before, ap m there, e.0, e.1)
      ] in
    let start : path ≡ path + 0 = omega arith in
    let there = subst (λ p. Names m p s ss) start names in
    let walk' =
      walk-walked A fs find Holds limit at.segment n finds ss fuel m (names_length s ss) path root 0
        s there (omega arith) ends short (ground (arith, apart)) holds lt in
    let w = walked find root s ss in
    let fits = walked-cases find root s ss in
    let Done : ℤ → Type 0 = λ z.
      (m' : Memory) × (lookup_parent A fuel at (record fs { memory = m }) root path name
        ≡ some (z, if is_zero z then w.1 else root, record fs { memory = m' }))
      × IsString m' (if is_zero z then name else at.segment) w.2 in
    elim fits.0 [
      | inl ok ↦
          let copied =
            strcpy-Copied fuel walk'.0 name at.segment w.2 walk'.2 (ground (arith, out, fits.1))
              (omega (arith, fits.1)) in
          subst Done (sym ok)
            (copied.0, ground (arith, measured, len, walk'.1, ok, copied.1), copied.2.0)
      | inr failed ↦
          subst Done (sym failed) (walk'.0, ground (arith, measured, len, walk'.1, failed), walk'.2)
    ]
