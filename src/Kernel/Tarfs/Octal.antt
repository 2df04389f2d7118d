-- ===== src/Kernel/Tarfs/Octal.antt =====
-- The sizes in tar headers.
use n00b_os.Prelude.{
  ℕ, zero, suc, ◌+◌, ◌-◌, ◌*◌, ◌/◌, ◌%◌, ◌^◌, ◌<◌, ◌≤◌, ◌≡◌, some, List, [], ◌∷◌, arith, length,
  subst,
}
use n00b_os.Libk.Memory.{Memory}
use n00b_os.Libk.Strings.Laws.{IsString}
use n00b_os.Kernel.Tarfs.{tar_header, read_octal_from, read_octal, next_header}

-- the characters are octal digits
abbrev pub AreOctal : List ℕ → Type 0
AreOctal [] = Unit
AreOctal (c ∷ cs) = (48 ≤ c) × (c < 56) × AreOctal cs

-- the number that digits stand for, after those of `n`
abbrev pub octal_from : ℕ → List ℕ → ℕ
octal_from n [] = n
octal_from n (c ∷ cs) = octal_from (n * 8 + (c - 48)) cs

octal_from-mod :
    (n k : ℕ) (cs : List ℕ)
    → n % 2 ^ 32 ≡ k % 2 ^ 32
    → octal_from n cs % 2 ^ 32 ≡ octal_from k cs % 2 ^ 32
octal_from-mod n k [] e = e
octal_from-mod n k (c ∷ cs) e =
    octal_from-mod (n * 8 + (c - 48)) (k * 8 + (c - 48)) cs (omega arith)

read_octal_from_lem :
    (fuel : ℕ) (m : Memory) (field i res : ℕ) (cs : List ℕ)
    → IsString m (field + i) cs
    → AreOctal cs
    → length cs < fuel
    → res < 2 ^ 32
    → read_octal_from fuel m field i res ≡ some (octal_from res cs % 2 ^ 32)
unfolding read_octal_from
read_octal_from_lem zero m field i res cs h o lt b = absurd (omega arith)
read_octal_from_lem (suc fuel) m field i res [] h o lt b = ground arith
read_octal_from_lem (suc fuel) m field i res (c ∷ cs) h o lt b =
    let next : field + i + 1 ≡ field + (i + 1) = omega arith in
    let r = (res * 8 + c + 2 ^ 32 - 48) % 2 ^ 32 in
    ground (
      arith,
      h.0,
      h.1,
      read_octal_from_lem fuel m field (i + 1) r cs (subst (λ p. IsString m p cs) next h.2) o.2
          (omega arith) (omega arith),
      octal_from-mod r (res * 8 + (c - 48)) cs (omega (arith, o.0)),
    )

-- `read_octal` reads a field of octal digits as the number that they stand for, in 32 bits.
pub read_octal_lem :
    (fuel : ℕ) (m : Memory) (field : ℕ) (cs : List ℕ)
    → IsString m field cs
    → AreOctal cs
    → length cs < fuel
    → read_octal fuel m field ≡ some (octal_from 0 cs % 2 ^ 32)
unfolding read_octal
read_octal_lem fuel m field cs h o lt =
    let start : field ≡ field + 0 = omega arith in
    read_octal_from_lem fuel m field 0 0 cs (subst (λ p. IsString m p cs) start h) o lt
      (omega arith)

-- `next_header` goes on by a header of 512 bytes and as many blocks of 512 bytes as the file's size
-- takes, for a size below 2 ^ 31.
pub next_header_lem :
    (fuel : ℕ) (m : Memory) (header : ℕ) (cs : List ℕ)
    → IsString m (tar_header header).size cs
    → AreOctal cs
    → length cs < fuel
    → octal_from 0 cs < 2 ^ 31
    → next_header fuel m header
      ≡ some ((header + 512 + (octal_from 0 cs + 511) / 512 * 512) % 2 ^ 32)
unfolding next_header
next_header_lem fuel m header cs h o lt small =
    ground (arith, read_octal_lem fuel m (header + 124) cs h o lt)
