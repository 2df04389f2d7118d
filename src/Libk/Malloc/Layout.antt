-- ===== src/Libk/Malloc/Layout.antt =====
-- The chunks of a heap in memory, one after the other, each between its two markers.
use n00b_os.Prelude.{ℕ, ◌+◌, ◌^◌, ◌≤◌, ◌<◌, ◌≡◌, ◌⊎◌, inl, inr, Bool, List, [], ◌∷◌, ◌++◌, arith}
use n00b_os.Libk.Memory.{Memory}
use n00b_os.Libk.Malloc.{flag, canary, aligned_size, mark_chunck}

pub data Chunk : Type 0 where
  chunk : (free : Bool) (size : ℕ) → Chunk

-- `M` is the size of a marker
module _ (M : ℕ) where
  -- how many bytes the chunks take, markers included
  abbrev pub total : List Chunk → ℕ
  total [] = 0
  total (chunk f s ∷ cs) = M + s + M + total cs

  pub total-append : (xs ys : List Chunk) → total (xs ++ ys) ≡ total xs + total ys
  total-append [] ys = omega arith
  total-append (chunk f s ∷ xs) ys = omega (arith, total-append xs ys)

  -- the chunks from `p` to `stop` are `cs`
  abbrev pub Layout : Memory → ℕ → ℕ → List Chunk → Type 0
  Layout m p stop [] = p ≡ stop
  Layout m p stop (chunk f s ∷ cs) =
      (m p ≡ flag f)
      × (m (p + 4) ≡ s)
      × (m (p + M + s) ≡ s)
      × (m (p + M + s + 4) ≡ canary)
      × Layout m (p + M + s + M) stop cs

  pub Layout-total :
      (m : Memory) (p stop : ℕ) (cs : List Chunk) → Layout m p stop cs → p + total cs ≡ stop
  Layout-total m p stop [] h = omega arith
  Layout-total m p stop (chunk f s ∷ cs) h =
      omega (arith, Layout-total m (p + M + s + M) stop cs h.4)

  pub Layout-append :
      (m : Memory) (p q stop : ℕ) (xs ys : List Chunk)
      → Layout m p q xs
      → Layout m q stop ys
      → Layout m p stop (xs ++ ys)
  Layout-append m p q stop [] ys h k = rw h k
  Layout-append m p q stop (chunk f s ∷ xs) ys h k =
      (h.0, h.1, h.2, h.3, Layout-append m (p + M + s + M) q stop xs ys h.4 k)

  -- where a layout of `xs ++ ys` passes from `xs` to `ys`
  pub Layout-split :
      (m : Memory) (p stop : ℕ) (xs ys : List Chunk)
      → Layout m p stop (xs ++ ys)
      → Layout m p (p + total xs) xs × Layout m (p + total xs) stop ys
  Layout-split m p stop [] ys h = let e : p + 0 ≡ p = omega arith in (omega arith, rw e h)
  Layout-split m p stop (chunk f s ∷ xs) ys h =
      let e : p + (M + s + M + total xs) ≡ p + M + s + M + total xs = omega arith in
      let (front, back) = Layout-split m (p + M + s + M) stop xs ys h.4 in
      rw e ((h.0, h.1, h.2, h.3, front), back)

  module _ (wide : 8 ≤ M) where
    -- a layout depends only on the words between its ends
    pub Layout-frame :
        (m g : Memory) (p stop : ℕ) (cs : List Chunk)
        → ((a : ℕ) → p ≤ a → a < stop → g a ≡ m a)
        → Layout m p stop cs
        → Layout g p stop cs
    Layout-frame m g p stop [] same h = h
    Layout-frame m g p stop (chunk f s ∷ cs) same h =
        let end : p + M + s + M + total cs ≡ stop = Layout-total m (p + M + s + M) stop cs h.4 in
        (
          ground (arith, same p),
          ground (arith, same (p + 4)),
          ground (arith, same (p + M + s)),
          ground (arith, same (p + M + s + 4)),
          Layout-frame m g (p + M + s + M) stop cs (λ a lo hi. same a (omega arith) hi) h.4,
        )

    -- Chunks in the middle give way to others in the same place.
    pub Layout-replace :
        (m g : Memory) (p q r stop : ℕ) (xs ys zs ws : List Chunk)
        → Layout m p stop (xs ++ (ys ++ zs))
        → q ≡ p + total xs
        → r ≡ q + total ys
        → ((a : ℕ) → (a < q) ⊎ (r ≤ a) → g a ≡ m a)
        → Layout g q r ws
        → Layout g p stop (xs ++ (ws ++ zs))
    Layout-replace m g p q r stop xs ys zs ws h eq er same new =
        let (front, rest) = Layout-split m p stop xs (ys ++ zs) h in
        let (middle, back) = Layout-split m (p + total xs) stop ys zs rest in
        let eq' : p + total xs ≡ q = omega arith in
        let er' : p + total xs + total ys ≡ r = omega arith in
        Layout-append g p q stop xs (ws ++ zs)
          (rw eq' at
            (Layout-frame m g p (p + total xs) xs (λ a lo hi. same a (inl (omega arith))) front))
          (Layout-append g q r stop ws zs new (
            rw er' at (
              Layout-frame m g (p + total xs + total ys) stop zs
                (λ a lo hi. same a (inr (omega arith))) back)))

module _ (max_align : ℕ) where
  abbrev M : ℕ
  M = aligned_size max_align 8

  module _ (m : Memory) (p s : ℕ) (f : Bool) (wide : 8 ≤ M) (below : p + M + s + M ≤ 2 ^ 32) where
    -- `mark_chunck` lays out one chunk
    pub mark_chunck-Layout :
        Layout M (mark_chunck max_align m p s f) p (p + M + s + M) (chunk f s ∷ [])
    unfolding mark_chunck
    mark_chunck-Layout = ground arith

    -- and writes nowhere else
    pub mark_chunck-frame :
        (a : ℕ) → (a < p) ⊎ (p + M + s + M ≤ a) → mark_chunck max_align m p s f a ≡ m a
    unfolding mark_chunck
    mark_chunck-frame a out = ground arith
