-- ===== src/Kernel/Tarfs/Directory.antt =====
-- A directory as a dictionary: its names, the newest first, with their nodes.
mod Tests
use n00b_os.Prelude.{
  ℕ, ◌+◌, ◌-◌, ◌<◌, ◌≡◌, ◌≢◌, refl, sym, ap, ap₂, subst, ◌⊎◌, Bool, true, false, ◌&&◌, Option, none,
  some, List, [], ◌∷◌, map, arith, length, ◌==◌, if◌then◌else◌, ℤ, pos, minus_one, is_zero,
}
use n00b_os.Libk.Memory.{Memory, Apart}
use n00b_os.Libk.Allocator.{Allocator}
use n00b_os.Libk.Strings.Laws.{
  IsString, IsString-frame, difference, strcmp-difference, strlen_lem, strcpy-Copied,
}
use n00b_os.Libk.Strings.Same.{same_name, strcmp-same_name}
use n00b_os.Kernel.Links.{◌∉◌}
use n00b_os.Kernel.ListHead.{list_add}
use n00b_os.Kernel.ListHead.Laws.{Entries, list_add-Entries, list_for_each_lem}
use n00b_os.Kernel.Tarfs.{TarDirEntry, v_dir, find_entry, node_lookup}
use n00b_os.Kernel.Tarfs.Nodes.{TarFs, add_to_dir, put, node_lookup_at, tar_dir_entries, name_entry}

-- what a dictionary holds under a name
abbrev pub find_name : List ℕ → List (List ℕ × ℕ) → Option ℕ
find_name nm [] = none
find_name nm (e ∷ names) = if same_name nm e.0 then some e.1 else find_name nm names

-- the entries' names are strings in memory, and their nodes those of the dictionary
abbrev pub Named : Memory → List TarDirEntry → List (List ℕ × ℕ) → Type 0
Named m [] [] = Unit
Named m [] (n ∷ names) = ⊥
Named m (e ∷ entries) [] = ⊥
Named m (e ∷ entries) (n ∷ names) = IsString m e.name n.0 × (e.vnode ≡ n.1) × Named m entries names

is_zero_elim {ℓ} :
    {A : Type ℓ} (z : ℤ) (x y : A)
    → (elim z [ ℤ.pos k ↦ if k == 0 then x else y | ℤ.negsuc k ↦ y ]) ≡ (if is_zero z then x else y)
is_zero_elim (ℤ.pos k) x y = refl
is_zero_elim (ℤ.negsuc k) x y = refl

find_entry-find_name :
    (fuel : ℕ) (m : Memory) (nm : ℕ) (cs : List ℕ) (entries : List TarDirEntry)
    (names : List (List ℕ × ℕ))
    → IsString m nm cs
    → Named m entries names
    → length cs < fuel
    → find_entry fuel m nm entries ≡ some (find_name cs names)
unfolding find_entry
find_entry-find_name fuel m nm cs [] [] h k lt = refl
find_entry-find_name fuel m nm cs [] (n ∷ names) h k lt = absurd k
find_entry-find_name fuel m nm cs (e ∷ entries) [] h k lt = absurd k
find_entry-find_name fuel m nm cs (e ∷ entries) (n ∷ names) h k lt =
    let ih = find_entry-find_name fuel m nm cs entries names h k.2 lt in
    let met = strcmp-same_name fuel m nm e.name cs n.0 h k.0 lt in
    ground (
      arith,
      met.1,
      met.2,
      ih,
      k.1,
      is_zero_elim met.0 (some (some e.vnode)) (find_entry fuel m nm entries),
    )

module _ (A : Allocator) where
  -- the list heads in the entries at the addresses `at`
  abbrev pub heads : List ℕ → List ℕ
  heads at = map (λ entry. entry + 8) at

  -- the node at `dir` is a directory, with the names and nodes of `names`
  pub record IsDir (fs : TarFs A) (dir : ℕ) (names : List (List ℕ × ℕ)) : Type 0 where
    pub at : List ℕ
    pub is_dir : (fs.vnodes dir).type ≡ v_dir
    pub ring : Entries fs.lists (fs.vnodes dir).data' (heads at)
    pub named : Named fs.memory (map fs.entries at) names

  heads-entries :
      (fs : TarFs A) (at : List ℕ)
      → map (λ item. fs.entries (item - 8)) (heads at) ≡ map fs.entries at
  heads-entries fs [] = refl
  heads-entries fs (e ∷ at) =
      let back : e + 8 - 8 ≡ e = omega arith in ap₂ ◌∷◌ (ap fs.entries back) (heads-entries fs at)

  length-heads : (f : ℕ → TarDirEntry) (at : List ℕ) → length (heads at) ≡ length (map f at)
  length-heads f [] = refl
  length-heads f (e ∷ at) = ground (arith, length-heads f at)

  Named-length :
      (m : Memory) (entries : List TarDirEntry) (names : List (List ℕ × ℕ))
      → Named m entries names
      → length entries ≡ length names
  Named-length m [] [] h = refl
  Named-length m [] (n ∷ names) h = absurd h
  Named-length m (e ∷ entries) [] h = absurd h
  Named-length m (e ∷ entries) (n ∷ names) h = ground (arith, Named-length m entries names h.2)

  -- `node_lookup` in a directory, given fuel above the number of its names and the length of the name that
  -- is looked for, finds the node of that name; and where there is none it fails and leaves `*vpp`.
  pub node_lookup_at-find_name :
      (fuel : ℕ) (fs : TarFs A) (vp nm vpp : ℕ) (cs : List ℕ) (names : List (List ℕ × ℕ))
      → IsDir fs vp names
      → IsString fs.memory nm cs
      → length cs < fuel
      → length names < fuel
      → node_lookup_at A fuel fs vp nm vpp
        ≡ some (elim (find_name cs names) [ some vnode ↦ (pos 0, vnode) | none ↦ (minus_one, vpp) ])
  unfolding node_lookup_at tar_dir_entries node_lookup
  node_lookup_at-find_name fuel fs vp nm vpp cs names d h lc ln =
      let found =
        find_entry-find_name fuel fs.memory nm cs (map fs.entries d.at) names h d.named lc in
      let visited = list_for_each_lem fuel d.ring (
        omega (
          arith,
          length-heads fs.entries d.at,
          Named-length fs.memory (map fs.entries d.at) names d.named,
        )) in
      let all : tar_dir_entries A fuel fs (fs.vnodes vp).data' ≡ some (map fs.entries d.at) =
        ground (arith, visited, heads-entries fs d.at) in
      ground (arith, d.is_dir, all, found)

-- a block of `n` bytes at `p` shares no byte with the names
abbrev pub NamesApart : ℕ → ℕ → List TarDirEntry → List (List ℕ × ℕ) → Type 0
NamesApart p n [] names = Unit
NamesApart p n (e ∷ entries) [] = Unit
NamesApart p n (e ∷ entries) (d ∷ names) =
    Apart p n e.name (length d.0 + 1) × NamesApart p n entries names

pub Named-frame :
    (m m' : Memory) (p n : ℕ) (entries : List TarDirEntry) (names : List (List ℕ × ℕ))
    → ((a : ℕ) → (a < p) ⊎ (p + n < a) → m' a ≡ m a)
    → NamesApart p (n + 1) entries names
    → Named m entries names
    → Named m' entries names
Named-frame m m' p n [] [] same apart h = tt
Named-frame m m' p n [] (d ∷ names) same apart h = absurd h
Named-frame m m' p n (e ∷ entries) [] same apart h = absurd h
Named-frame m m' p n (e ∷ entries) (d ∷ names) same apart h = (
  IsString-frame m m' e.name d.0 (λ a lo hi. same a (ground (arith, apart.0))) h.0,
  h.1,
  Named-frame m m' p n entries names same apart.1 h.2,
)

module _ (A : Allocator) where
  map-put :
      (f : ℕ → TarDirEntry) (entry : ℕ) (v : TarDirEntry) (at : List ℕ)
      → (entry + 8) ∉ heads A at
      → map (put f entry v) at ≡ map f at
  map-put f entry v [] out = refl
  map-put f entry v (e ∷ at) out =
      ap₂ ◌∷◌ (ground (arith, out)) (map-put f entry v at (ground (arith, out)))

  -- `add_to_dir`, in a directory `names`, for a string `cs` and given more fuel than its length, where there
  -- is memory for the entry and for the copy of the name, the entry's list head is the directory's neither
  -- as its head nor as an entry, and the copy lies apart from the name and from the directory's names: it
  -- succeeds, and the directory then holds `cs` with the node `child` in front of what it held.
  pub add_to_dir-IsDir :
      (fuel : ℕ) (fs : TarFs A) (dir name child entry name_copy : ℕ) (heap heap' : A.State)
      (cs : List ℕ) (names : List (List ℕ × ℕ))
      → (d : IsDir A fs dir names) → IsString fs.memory name cs
      → length cs < fuel
      → A.malloc 16 fs.heap ≡ (entry, heap)
      → A.malloc (length cs + 1) heap ≡ (name_copy, heap')
      → entry ≢ 0
      → name_copy ≢ 0
      → entry + 8 ≢ (fs.vnodes dir).data'
      → (entry + 8) ∉ heads A d.at
      → NamesApart name_copy (length cs + 1) (map fs.entries d.at) names
      → Apart name_copy (length cs + 1) name (length cs + 1)
      → (fs' : TarFs A) × (add_to_dir A fuel fs dir name child ≡ some (pos 0, fs'))
        × IsDir A fs' dir ((cs, child) ∷ names)
  unfolding add_to_dir name_entry
  add_to_dir-IsDir fuel fs dir name child entry name_copy heap heap' cs names d h lt m1 m2 en nn eh
        out apart own =
      let measured = strlen_lem fuel fs.memory name cs h lt in
      let copied = strcpy-Copied fuel fs.memory name_copy name cs h own lt in
      let new : TarDirEntry = record { name = name_copy; vnode = child } in
      let here : put fs.entries entry new entry ≡ new = ground arith in
      let old =
        Named-frame fs.memory copied.0 name_copy (length cs) (map fs.entries d.at) names copied.2.1
          apart d.named in
      let fs' : TarFs A = record fs {
        heap = heap';
        memory = copied.0;
        entries = put fs.entries entry new;
        lists = list_add fs.lists (fs.vnodes dir).data' (entry + 8);
      } in
      (
        fs',
        ground (arith, m1, m2, measured, copied.1),
        record {
          at = entry ∷ d.at;
          is_dir = d.is_dir;
          ring = list_add-Entries (entry + 8) d.ring eh out;
          named = (
            subst (λ e. IsString copied.0 e.name cs) (sym here) copied.2.0,
            ap (λ e. e.vnode) here,
            subst (λ entries. Named copied.0 entries names)
                (sym (map-put fs.entries entry new d.at out)) old,
          );
        },
      )
