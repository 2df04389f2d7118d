-- ===== src/Libk/Malloc/Grow.antt =====
-- `malloc` where no free chunk is large enough: the heap grows page by page.
use n00b_os.Prelude.{
  ℕ, zero, suc, ◌+◌, ◌*◌, ◌^◌, ◌≤◌, ◌<◌, max, ◌≡◌, ◌≢◌, refl, subst, pos, ◌⊎◌, inl, inr, true,
  arith, Option, none, some, ltb, ◌==◌, is_zero, Bool-cases,
}
use n00b_os.Kernel.Pages.{PageSource}
use n00b_os.Libk.Malloc.{page_size, u32, Heap, grow}
use n00b_os.Libk.Malloc.Paged.{Mapped, Refused, Stuck}

module _ (P : PageSource) (max_align : ℕ) where
  -- what the loop that increases the heap ends with: panic where a page is refused, or `k` pages more and none
  -- too many
  abbrev pub Grown : Heap P → ℕ → ℕ → Option (Option (Heap P × ℕ)) → Type 0
  Grown h free wanted out =
      ((out ≡ some none) × Stuck P h free wanted)
      ⊎ ((k : ℕ) × (pages : P.State) × (out
            ≡ some (
                some (
                  record h { heap_end = h.heap_end + k * page_size; pages = pages },
                  free + k * page_size,
                )))
          × (wanted ≤ free + k * page_size)
          × (free + k * page_size < max free wanted + page_size)
          × Mapped P k h.heap_end h.pages pages)

  -- the step to one page more
  Grown-suc :
      {out : Option (Option (Heap P × ℕ))} (h : Heap P) (free wanted : ℕ)
      → free < wanted
      → (P.alloc_physical_page true h.pages).0 ≢ 0
      → (P.map_page
          (P.alloc_physical_page true h.pages).0
          h.heap_end
          (P.alloc_physical_page true h.pages).1).0
        ≡ pos 0
      → Grown
          (record h {
            heap_end = h.heap_end + page_size;
            pages =
                (P.map_page
                  (P.alloc_physical_page true h.pages).0
                  h.heap_end
                  (P.alloc_physical_page true h.pages).1).1;
          })
          (free + page_size)
          wanted
          out
      → Grown h free wanted out
  Grown-suc h free wanted lt got fine (inl (e, (k, pages', short, mapped, refused))) = inl (
    e,
    (
      suc k,
      pages',
      omega arith,
      (got, fine, mapped),
      subst (λ at. Refused P at pages') (omega arith) refused,
    ),
  )
  Grown-suc h free wanted lt got fine (inr (k, pages', e, enough, least, mapped)) =
      inr (suc k, pages', ground arith, omega arith, omega arith, (got, fine, mapped))

  pub grow-Grown :
      (fuel : ℕ) (h : Heap P) (free wanted : ℕ)
      → max free wanted + page_size ≤ free + fuel * page_size
      → h.heap_end + wanted + page_size < 2 ^ 32 + free
      → free ≤ h.heap_end
      → Grown h free wanted (grow P max_align fuel h free wanted)
  unfolding grow
  grow-Grown zero h free wanted enough small inside = absurd (omega arith)
  grow-Grown (suc fuel) h free wanted enough small inside = elim (Bool-cases (ltb free wanted)) [
    | inl b ↦
        let lt : free < wanted = ground arith in
        let page = P.alloc_physical_page true h.pages in
        let mapped = P.map_page page.0 h.heap_end page.1 in
        let wrap : u32 (h.heap_end + page_size) ≡ h.heap_end + page_size = ground arith in
        let wrap' : u32 (free + page_size) ≡ free + page_size = ground arith in
        let rest = λ (pn : page.0 ≢ 0) (zero_error : mapped.0 ≡ pos 0).
          Grown-suc h free wanted lt pn zero_error (
            grow-Grown fuel (record h { heap_end = h.heap_end + page_size; pages = mapped.1 })
              (free + page_size) wanted (omega arith) (omega arith) (omega arith)) in
        elim (Bool-cases (page.0 == 0)) [
          | inl none_left ↦ inl (ground arith, (0, h.pages, ground arith, refl, inl (ground arith)))
          | inr got ↦ elim (Bool-cases (is_zero mapped.0)) [
            | inl fine ↦ rw (b, got, fine, wrap, wrap') (rest (ground arith) (ground arith))
            | inr failed ↦ inl (ground arith, (0, h.pages, ground arith, refl, inr (ground arith)))
          ]
        ]
    | inr b ↦ inr (0, h.pages, ground arith, ground arith, ground arith, refl)
  ]
