-- ===== src/Libk/Malloc/Place.antt =====
-- What `malloc` makes of the free chunk that it takes: the chunk whole, or its two parts.
use n00b_os.Prelude.{
  ℕ, ◌+◌, ◌-◌, ◌^◌, ◌≤◌, ◌<◌, ◌≡◌, ◌∙◌, subst, ◌⊎◌, inl, inr, true, false, List, [], ◌∷◌, arith,
  ltb, if◌then◌else◌, Bool-cases,
}
use n00b_os.Libk.Memory.{Memory}
use n00b_os.Kernel.Pages.{PageSource}
use n00b_os.Kernel.Semaphore.{semaphore_release}
use n00b_os.Libk.Malloc.{aligned_size, mark_chunck, Heap, returned, use_chunck, use_end}
use n00b_os.Libk.Malloc.Layout.{
  Chunk, chunk, Layout, Layout-append, Layout-frame, mark_chunck-Layout, mark_chunck-frame,
}

-- a chunk of `s` bytes with its first `u` handed out
abbrev pub cut : ℕ → ℕ → ℕ → List Chunk
cut M u s =
    if ltb (u + M + M) s
    then chunk false u ∷ chunk true (s - u - M - M) ∷ []
    else chunk false s ∷ []

module _ (max_align : ℕ) where
  abbrev M : ℕ
  M = aligned_size max_align 8

  -- a used chunk marked in front of a free one
  pub two_marks :
      (m : Memory) (q u r : ℕ)
      → 8 ≤ M
      → q + M + u + M + M + r + M ≤ 2 ^ 32
      → let g = mark_chunck max_align (mark_chunck max_align m (q + M + u + M) r true) q u false in
        Layout M g q (q + M + u + M + M + r + M) (chunk false u ∷ chunk true r ∷ [])
        × ((a : ℕ) → (a < q) ⊎ (q + M + u + M + M + r + M ≤ a) → g a ≡ m a)
  two_marks m q u r wide small = (
    Layout-append M g q p (p + M + r + M) (chunk false u ∷ []) (chunk true r ∷ [])
        (mark_chunck-Layout max_align rest q u false wide (omega arith))
        (Layout-frame M wide rest g p (p + M + r + M) (chunk true r ∷ [])
          (λ a lo hi. mark_chunck-frame max_align rest q u false wide (omega arith) a (inr lo))
          (mark_chunck-Layout max_align m p r true wide small)),
    outside,
  )
    where
      p : ℕ
      p = q + M + u + M

      rest : Memory
      rest = mark_chunck max_align m p r true

      g : Memory
      g = mark_chunck max_align rest q u false

      outside : (a : ℕ) → (a < q) ⊎ (q + M + u + M + M + r + M ≤ a) → g a ≡ m a
      outside a (inl lo) =
          mark_chunck-frame max_align rest q u false wide (omega arith) a (inl lo)
          ∙ mark_chunck-frame max_align m p r true wide small a (inl (omega arith))
      outside a (inr hi) =
          mark_chunck-frame max_align rest q u false wide (omega arith) a (inr (omega arith))
          ∙ mark_chunck-frame max_align m p r true wide small a (inr hi)

  module _ (P : PageSource) (h : Heap P) (u q s : ℕ) (wide : 8 ≤ M) (fits : u ≤ s)
      (small : q + M + s + M < 2 ^ 32) where
    -- the memory that `malloc` leaves
    pub placed : Memory
    placed =
        if ltb (u + M + M) s
        then mark_chunck max_align
            (mark_chunck max_align h.memory (q + M + u + M) (s - u - M - M) true) q u false
        else mark_chunck max_align h.memory q s false

    pub use_chunck-placed :
        use_chunck P max_align h u q s
        ≡ returned
            (q + M)
            (record h { memory = placed; heap_semaphore = semaphore_release h.heap_semaphore })
    unfolding use_chunck placed
    use_chunck-placed = ground arith

    pub use_end-placed :
        M + M ≤ q
        → use_end P max_align h u q (s + M + M)
          ≡ returned
              (q + M)
              (record h { memory = placed; heap_semaphore = semaphore_release h.heap_semaphore })
    unfolding use_end placed
    use_end-placed high = ground arith

    pub placed-cut :
        Layout M placed q (q + M + s + M) (cut M u s)
        × ((a : ℕ) → (a < q) ⊎ (q + M + s + M ≤ a) → placed a ≡ h.memory a)
    unfolding placed
    placed-cut = elim (Bool-cases (ltb (u + M + M) s)) [
      | inl b ↦ rw b (
          subst
            (λ t.
              Layout M (marked b) q t (chunk false u ∷ chunk true (s - u - M - M) ∷ [])
              × ((a : ℕ) → (a < q) ⊎ (t ≤ a) → marked b a ≡ h.memory a))
            (spans b) (two_marks h.memory q u (s - u - M - M) wide (omega (arith, spans b))))
      | inr b ↦ rw b (
        mark_chunck-Layout max_align h.memory q s false wide (omega arith),
        mark_chunck-frame max_align h.memory q s false wide (omega arith),
      )
    ]
      where
        marked : ltb (u + M + M) s ≡ true → Memory
        marked b =
            mark_chunck max_align
              (mark_chunck max_align h.memory (q + M + u + M) (s - u - M - M) true) q u false

        spans : ltb (u + M + M) s ≡ true → q + M + u + M + M + (s - u - M - M) + M ≡ q + M + s + M
        spans b = ground arith
