-- ===== src/Kernel/Tarfs/CopyName.antt =====
-- `lookup_parent` copies a name of the path to the caller's array.
use n00b_os.Prelude.{
  ℕ, zero, suc, ◌+◌, ◌<◌, ◌≤◌, ◌≡◌, ◌⊎◌, refl, sym, subst, List, [], ◌∷◌, arith, length,
}
use n00b_os.Libk.Memory.{Memory, store, Apart}
use n00b_os.Libk.Strings.Laws.{IsString}
use n00b_os.Kernel.Tarfs.Mount.{copy_name}
use n00b_os.Kernel.Tarfs.Names.{Name, Name-frame}

-- What copying the name `s` to `nm + nm_index` leaves: the indices, and the name, once a 0 follows.
unfoldable pub NameCopied : Memory → ℕ → ℕ → ℕ → List ℕ → ℕ × ℕ × Memory → Type 0
NameCopied m nm nm_index index s r =
    (r.0 ≡ index + length s)
    × (r.1 ≡ nm_index + length s)
    × IsString (store r.2 (nm + r.1) 0) (nm + nm_index) s
    × ((a : ℕ) → (a < nm + nm_index) ⊎ (nm + nm_index + length s ≤ a) → r.2 a ≡ m a)

pub copy_name_lem :
    (k : ℕ) (m : Memory) (path nm nm_index index : ℕ) (s : List ℕ)
    → Name m (path + index) s
    → (k ≡ length s) ⊎ ((length s < k) × (m (path + index + length s) ≡ 47))
    → Apart (nm + nm_index) (length s + 1) (path + index) (length s + 1)
    → NameCopied m nm nm_index index s (copy_name k m path nm nm_index index)
unfolding copy_name NameCopied
copy_name_lem zero m path nm nm_index index [] h end apart =
    (ground arith, ground arith, ground arith, λ a out. refl)
copy_name_lem zero m path nm nm_index index (c ∷ s) h end apart = absurd (ground (arith, end))
copy_name_lem (suc k) m path nm nm_index index [] h end apart =
    let stop : copy_name (suc k) m path nm nm_index index ≡ (index, nm_index, m) =
      ground (arith, end) in
    subst (NameCopied m nm nm_index index []) (sym stop)
      (ground arith, ground arith, ground arith, λ a out. refl)
copy_name_lem (suc k) m path nm nm_index index (c ∷ s) h end apart =
    let m1 = store m (nm + nm_index) (m (path + index)) in
    let next : path + index + 1 ≡ path + (index + 1) = omega arith in
    let there = subst (λ p. Name m p s) next h.3 in
    let r = copy_name k m1 path nm (nm_index + 1) (index + 1) in
    let ih =
      copy_name_lem k m1 path nm (nm_index + 1) (index + 1) s
        (Name-frame m m1 (path + (index + 1)) (length s) s (omega arith)
          (λ a lo hi. ground (arith, apart)) there)
        (ground (arith, end, apart)) (ground (arith, apart)) in
    let go : copy_name (suc k) m path nm nm_index index ≡ r = ground (arith, h.0, h.2) in
    let further : nm + (nm_index + 1) ≡ nm + nm_index + 1 = omega arith in
    subst (NameCopied m nm nm_index index (c ∷ s)) (sym go) (
      ground (arith, ih.0),
      ground (arith, ih.1),
      (
        ground (arith, ih.1, ih.3 (nm + nm_index), h.0),
        h.1,
        subst (λ p. IsString (store r.2 (nm + r.1) 0) p s) further ih.2,
      ),
      λ a out. ground (arith, out, ih.3 a),
    )
