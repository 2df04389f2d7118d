-- ===== src/Libk/Malloc/Search.antt =====
-- The search of `malloc` ends, and finds a free chunk that is large enough and none better.
use n00b_os.Prelude.{
  ℕ, zero, suc, ◌+◌, ◌^◌, ◌≤◌, ◌<◌, ◌≡◌, refl, ap, ◌∙◌, subst, ◌≢◌, ◌⊎◌, inl, inr, Bool, true,
  false, ◌&&◌, ◌||◌, List, [], ◌∷◌, ◌++◌, arith, length, some, ltb, leb, ◌==◌, Bool-cases,
}
use n00b_os.Libk.Memory.{Memory}
use n00b_os.Libk.Malloc.{flag, aligned_size, Found, search}
use n00b_os.Libk.Malloc.Layout.{Chunk, chunk, total, Layout, Layout-total}

-- every free chunk of at least `u` bytes has at least `n`
abbrev pub NoneBelow : ℕ → ℕ → List Chunk → Type 0
NoneBelow u n [] = Unit
NoneBelow u n (chunk f s ∷ cs) = (f ≡ true → u ≤ s → n ≤ s) × NoneBelow u n cs

-- no free chunk has `u` bytes
abbrev pub NoneFits : ℕ → List Chunk → Type 0
NoneFits u [] = Unit
NoneFits u (chunk f s ∷ cs) = (f ≡ true → s < u) × NoneFits u cs

-- no free chunk of at least `u` bytes is better than the best so far, `bs` bytes at `bp`
abbrev pub NoneBetter : ℕ → ℕ → ℕ → List Chunk → Type 0
NoneBetter u bp bs [] = Unit
NoneBetter u bp bs (chunk f s ∷ cs) =
    (f ≡ true → u ≤ s → (bp ≢ 0) × (bs ≤ s)) × NoneBetter u bp bs cs

pub NoneFits-NoneBetter : (u bs : ℕ) (cs : List Chunk) → NoneBetter u 0 bs cs → NoneFits u cs
NoneFits-NoneBetter u bs [] h = tt
NoneFits-NoneBetter u bs (chunk f s ∷ cs) h =
    (λ free. ground (arith, h.0 free), NoneFits-NoneBetter u bs cs h.1)

NoneBelow-NoneBetter :
    (u bp bs n : ℕ) (cs : List Chunk) → n ≤ bs → NoneBetter u bp bs cs → NoneBelow u n cs
NoneBelow-NoneBetter u bp bs n [] e h = tt
NoneBelow-NoneBetter u bp bs n (chunk f s ∷ cs) e h =
    (λ free fits. omega (arith, (h.0 free fits).1), NoneBelow-NoneBetter u bp bs n cs e h.1)

NoneBelow-self : (u : ℕ) (cs : List Chunk) → NoneBelow u u cs
NoneBelow-self u [] = tt
NoneBelow-self u (chunk f s ∷ cs) = (λ free fits. fits, NoneBelow-self u cs)

-- the address of the last chunk
abbrev pub last_of : ℕ → ℕ → List Chunk → ℕ → ℕ
last_of M p [] l = l
last_of M p (chunk f s ∷ cs) l = last_of M (p + M + s + M) cs p

module _ (M u : ℕ) where
  -- what a search of `cs`, laid out from `p` on, makes of `found`
  pub data Searched (p : ℕ) (cs : List Chunk) (found : Found) : Found → Type 0 where
    kept :
        {after : Found}
        → after.best_ptr ≡ found.best_ptr
        → after.best_size ≡ found.best_size
        → after.last ≡ last_of M p cs found.last
        → NoneBetter u found.best_ptr found.best_size cs
        → Searched p cs found after
    taken :
        {after : Found} (front : List Chunk) (back : List Chunk)
        → cs ≡ front ++ (chunk true after.best_size ∷ back)
        → after.best_ptr ≡ p + total M front
        → u ≤ after.best_size
        → NoneBelow u after.best_size cs
        → (found.best_ptr ≡ 0) ⊎ (after.best_size ≤ found.best_size)
        → Searched p cs found after

  module _ (p s : ℕ) (cs : List Chunk) (found : Found) where
    -- the search goes on behind a chunk that it takes for the best so far
    after_better :
        {after : Found}
        → u ≤ s
        → 0 < p
        → (found.best_ptr ≡ 0) ⊎ (s < found.best_size)
        → Searched (p + M + s + M) cs (record { best_ptr = p; best_size = s; last = p }) after
        → Searched p (chunk true s ∷ cs) found after
    after_better {after} fits pos beats (kept kp ks kl none_better) =
        taken [] cs (rw ks) (omega arith) (omega arith)
          (
            λ _ _. omega arith,
            NoneBelow-NoneBetter u p s after.best_size cs (omega arith) none_better,
          )
          (ground arith)
    after_better {after} fits pos beats (taken front back e at large none_below less) =
        taken (chunk true s ∷ front) back (ap (λ r. chunk true s ∷ r) e) (omega arith) large
          (λ _ _. ground arith, none_below) (ground arith)

    -- and behind one that it passes over
    after_worse :
        {after : Found} (f : Bool)
        → (f ≡ true → u ≤ s → (found.best_ptr ≢ 0) × (found.best_size ≤ s))
        → Searched (p + M + s + M) cs (record found { last = p }) after
        → Searched p (chunk f s ∷ cs) found after
    after_worse f worse (kept kp ks kl none_better) = kept kp ks kl (worse, none_better)
    after_worse {after} f worse (taken front back e at large none_below less) =
        taken (chunk f s ∷ front) back (ap (λ r. chunk f s ∷ r) e) (omega arith) large
          (λ free fits. ground (arith, worse free fits), none_below) (ground arith)

-- the test of the loop, for a chunk that is laid out
abbrev better : ℕ → Found → Bool → ℕ → Bool
better u found f s = f && (leb u s && (found.best_ptr == 0 || ltb s found.best_size))

module _ (max_align u : ℕ) where
  abbrev M : ℕ
  M = aligned_size max_align 8

  module _ (fuel : ℕ) (m : Memory) (p stop s : ℕ) (f : Bool) (found : Found) (e0 : m p ≡ flag f)
      (e1 : m (p + 4) ≡ s) (inside : p + M + s + M ≤ stop) (wide : 0 < M)
      (small : stop < 2 ^ 32) where
    step_exact :
        better u found f s ≡ true
        → s ≡ u
        → search max_align (suc fuel) m u stop p found
          ≡ some (record { best_ptr = p; best_size = s; last = p })
    unfolding search
    step_exact b e = ground arith

    step_better :
        better u found f s ≡ true
        → s ≢ u
        → search max_align (suc fuel) m u stop p found
          ≡ search max_align fuel m u stop
              (p + M + s + M)
              (record { best_ptr = p; best_size = s; last = p })
    unfolding search
    step_better b e = ground arith

    step_worse :
        better u found f s ≡ false
        → search max_align (suc fuel) m u stop p found
          ≡ search max_align fuel m u stop (p + M + s + M) (record found { last = p })
    unfolding search
    step_worse b = ground arith

  pub search-Searched :
      (fuel : ℕ) (m : Memory) (p stop : ℕ) (cs : List Chunk) (found : Found)
      → Layout M m p stop cs
      → 0 < p
      → 0 < M
      → stop < 2 ^ 32
      → length cs < fuel
      → (after : Found) × (search max_align fuel m u stop p found ≡ some after)
        × Searched M u p cs found after
  search-Searched zero m p stop cs found h pos wide small lt = absurd (omega arith)
  search-Searched (suc fuel) m p stop [] found h pos wide small lt =
      (found, unfold search in ground arith, kept refl refl refl tt)
  search-Searched (suc fuel) m p stop (chunk false s ∷ cs) found h pos wide small lt =
      let inside = Layout-total M m (p + M + s + M) stop cs h.4 in
      let (after, run, r) =
        search-Searched fuel m (p + M + s + M) stop cs (record found { last = p }) h.4 (omega arith)
          wide small (omega arith) in
      (
        after,
        step_worse fuel m p stop s false found h.0 h.1 (omega (arith, inside)) wide small refl
            ∙ run,
        after_worse M u p s cs found false (λ free. cc) r,
      )
  search-Searched (suc fuel) m p stop (chunk true s ∷ cs) found h pos wide small lt =
      elim (Bool-cases (better u found true s)) [
        | inl b ↦ elim (Bool-cases (s == u)) [
          | inl e ↦ (
            record { best_ptr = p; best_size = s; last = p },
            step_exact fuel m p stop s true found h.0 h.1 inside wide small b (ground arith),
            taken [] cs refl (omega arith) (ground arith)
                (
                  λ _ _. omega arith,
                  subst (λ n. NoneBelow u n cs) {x = u} (ground arith) (NoneBelow-self u cs),
                )
                (ground arith),
          )
          | inr ne ↦
              let (after, run, r) =
                search-Searched fuel m (p + M + s + M) stop cs
                  (record { best_ptr = p; best_size = s; last = p }) h.4 (omega arith) wide small
                  (omega arith) in
              (
                after,
                step_better fuel m p stop s true found h.0 h.1 inside wide small b (ground arith)
                    ∙ run,
                after_better M u p s cs found (ground arith) pos (ground arith) r,
              )
        ]
        | inr b ↦
            let (after, run, r) =
              search-Searched fuel m (p + M + s + M) stop cs (record found { last = p }) h.4
                (omega arith) wide small (omega arith) in
            (
              after,
              step_worse fuel m p stop s true found h.0 h.1 inside wide small b ∙ run,
              after_worse M u p s cs found true (λ free fits. ground arith) r,
            )
      ]
    where
      inside : p + M + s + M ≤ stop
      inside = omega (arith, Layout-total M m (p + M + s + M) stop cs h.4)
