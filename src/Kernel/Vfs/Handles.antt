-- ===== src/Kernel/Vfs/Handles.antt =====
-- Opening and closing.
use n00b_os.Prelude.{
  ℕ, ◌≡◌, refl, Bool, false, ◌||◌, none, some, List, [], ◌∷◌, arith, ◌==◌, inl, inr, ◌⊎◌,
  Bool-cases,
}
use n00b_os.Kernel.Links.{has}
use n00b_os.Kernel.Vfs.{OpenFiles, put_in, put_file_handle, remove_in, remove_file_handle}

-- a handle is among the open files
abbrev pub is_open : ℕ → OpenFiles → Bool
is_open h [] = false
is_open h (handles ∷ files) = has h handles || is_open h files

remove_in-none : (handles : List ℕ) (h : ℕ) → has h handles ≡ false → remove_in handles h ≡ none
unfolding remove_in
remove_in-none [] h new = refl
remove_in-none (x ∷ handles) h new = ground (arith, remove_in-none handles h)

remove_in-put_in :
    (handles : List ℕ) (h : ℕ)
    → has h handles ≡ false
    → ((has 0 handles ≡ false) × (put_in handles h ≡ none))
      ⊎ ((hs : List ℕ) × (put_in handles h ≡ some hs) × (remove_in hs h ≡ some handles))
unfolding put_in remove_in
remove_in-put_in [] h new = inl (refl, refl)
remove_in-put_in (x ∷ handles) h new = elim (Bool-cases (x == 0)) [
  | inl empty ↦ inr (h ∷ handles, ground (arith, empty), ground (arith, empty))
  | inr used ↦ elim (remove_in-put_in handles h (ground arith)) [
    | inl (all, full) ↦ inl (ground (arith, used, all), ground (arith, used, full))
    | inr (hs, put, removed) ↦ inr (x ∷ hs, ground (arith, used, put), ground (arith, removed))
  ]
]

-- A free place is a 0. Where no block has one, `put_file_handle` panics; otherwise it puts a handle that is not
-- among the open files where `remove_file_handle` finds it, which leaves them as they were.
pub remove_file_handle-put_file_handle :
    (files : OpenFiles) (h : ℕ)
    → is_open h files ≡ false
    → ((is_open 0 files ≡ false) × (put_file_handle files h ≡ none))
      ⊎ ((fs : OpenFiles) × (put_file_handle files h ≡ some fs)
          × (remove_file_handle fs h ≡ some files))
unfolding put_file_handle remove_file_handle
remove_file_handle-put_file_handle [] h new = inl (refl, refl)
remove_file_handle-put_file_handle (handles ∷ files) h new =
    elim (remove_in-put_in handles h (ground arith)) [
      | inr (hs, put, removed) ↦ inr (hs ∷ files, ground (arith, put), ground (arith, removed))
      | inl (all, full) ↦ elim (remove_file_handle-put_file_handle files h (ground arith)) [
        | inl (all', none_left) ↦ inl (ground (arith, all, all'), ground (arith, full, none_left))
        | inr (fs, put, removed) ↦ inr (
          handles ∷ fs,
          ground (arith, full, put),
          ground (arith, removed, remove_in-none handles h),
        )
      ]
    ]
