-- ===== src/Kernel/PageAllocator/Free.antt =====
-- The pages that are free: a list through their first words.
use n00b_os.Prelude.{ℕ, ◌≡◌, ◌≢◌, refl, sym, Bool, true, List, [], ◌∷◌, arith, subst}
use n00b_os.Kernel.Links.{has, ◌∉◌}
use n00b_os.Kernel.PageAllocator.{Physical, Pages, mm_alloc_physical_page, mm_free_physical_page}

-- from `page` on, the list holds the distinct pages `xs`
abbrev pub FreeFrom : Physical → ℕ → List ℕ → Type 0
FreeFrom physical page [] = page ≡ 0
FreeFrom physical page (x ∷ xs) =
    (page ≡ x) × (x ≢ 0) × (x ∉ xs) × FreeFrom physical (physical x 0) xs

abbrev pub Free : Pages → List ℕ → Type 0
Free s xs = FreeFrom s.physical s.first_free_page xs

FreeFrom-frame :
    (p p' : Physical) (page : ℕ) (xs : List ℕ)
    → ((a : ℕ) → has a xs ≡ true → p' a 0 ≡ p a 0)
    → FreeFrom p page xs
    → FreeFrom p' page xs
FreeFrom-frame p p' page [] same h = h
FreeFrom-frame p p' page (x ∷ xs) same h = (
  h.0,
  h.1,
  h.2,
  subst (λ q. FreeFrom p' q xs) (sym (same x (ground arith)))
      (FreeFrom-frame p p' (p x 0) xs (λ a i. same a (ground arith)) h.3),
)

-- Where no page is free, `mm_alloc_physical_page` returns 0 and changes nothing.
pub mm_alloc_physical_page-none :
    (s : Pages) (zeroed : Bool) → Free s [] → mm_alloc_physical_page s zeroed ≡ (0, s)
unfolding mm_alloc_physical_page
mm_alloc_physical_page-none s zeroed h = ground (arith, h)

-- `mm_free_physical_page` puts a page that is not free in front of the list; the next call of
-- `mm_alloc_physical_page` returns it.
pub mm_free_physical_page-Free :
    (s : Pages) (xs : List ℕ) (page : ℕ) (zeroed : Bool)
    → Free s xs
    → page ≢ 0
    → page ∉ xs
    → Free (mm_free_physical_page s page) (page ∷ xs)
      × ((mm_alloc_physical_page (mm_free_physical_page s page) zeroed).0 ≡ page)
unfolding mm_free_physical_page mm_alloc_physical_page
mm_free_physical_page-Free s xs page zeroed h nz out =
    let s' = mm_free_physical_page s page in
    let link : s.first_free_page ≡ s'.physical page 0 = ground arith in
    (
      (
        refl,
        nz,
        out,
        subst (λ q. FreeFrom s'.physical q xs) link
            (FreeFrom-frame s.physical s'.physical s.first_free_page xs (λ a i. ground arith) h),
      ),
      ground arith,
    )
