-- ===== src/Libk/Malloc/Bytes.antt =====
-- The bytes of a memory of 32-bit words: the word at an address that 4 divides holds the bytes there and
-- at the three addresses after it, the lowest first.
use n00b_os.Prelude.{
  ap, ℕ, zero, suc, ◌+◌, ◌-◌, ◌*◌, ◌/◌, ◌%◌, ◌≤◌, ◌<◌, ◌≡◌, ◌≢◌, refl, ◌∙◌, ◌⊎◌, inl, inr, arith,
  ◌==◌, if◌then◌else◌, Bool-cases, subst,
}
use n00b_os.Libk.Memory.{Memory, store, Apart}

abbrev unit : ℕ → ℕ
unit k = if k == 0 then 1 else if k == 1 then 256 else if k == 2 then 65536 else 16777216

byte_of : ℕ → ℕ → ℕ
byte_of w k = w / unit k % 256

-- the word with the byte `v` for one of its own
with_byte : ℕ → ℕ → ℕ → ℕ
unfolding byte_of
with_byte w k v = w - byte_of w k * unit k + v * unit k

byte_of-with_byte : (w k v : ℕ) → v < 256 → byte_of (with_byte w k v) k ≡ v
unfolding byte_of with_byte
byte_of-with_byte w k v lt = ground arith

byte_of-other :
    (w k j v : ℕ) → v < 256 → k < 4 → j < 4 → j ≢ k → byte_of (with_byte w k v) j ≡ byte_of w j
unfolding byte_of with_byte
byte_of-other w k j v lt lk lj ne = ground arith

byte_of-lt : (w k : ℕ) → byte_of w k < 256
unfolding byte_of
byte_of-lt w k = omega arith

pub byte_at : Memory → ℕ → ℕ
unfolding byte_of
byte_at m a = byte_of (m (a - a % 4)) (a % 4)

pub set_byte : Memory → ℕ → ℕ → Memory
unfolding with_byte
set_byte m a v = store m (a - a % 4) (with_byte (m (a - a % 4)) (a % 4) v)

-- `memcpy`, on the bytes of words
unfoldable pub copy_bytes : ℕ → ℕ → ℕ → ℕ → Memory → Memory
unfolding byte_at set_byte
copy_bytes zero i dst src m = m
copy_bytes (suc k) i dst src m =
    copy_bytes k (i + 1) dst src (set_byte m (dst + i) (byte_at m (src + i)))

byte_at-lt : (m : Memory) (a : ℕ) → byte_at m a < 256
unfolding byte_at
byte_at-lt m a = byte_of-lt (m (a - a % 4)) (a % 4)

byte_at-set : (m : Memory) (a v : ℕ) → v < 256 → byte_at (set_byte m a v) a ≡ v
unfolding byte_at set_byte
byte_at-set m a v lt = ground (arith, byte_of-with_byte (m (a - a % 4)) (a % 4) v lt)

byte_at-other :
    (m : Memory) (a v b : ℕ) → v < 256 → b ≢ a → byte_at (set_byte m a v) b ≡ byte_at m b
unfolding byte_at set_byte
byte_at-other m a v b lt ne = elim (Bool-cases ((b - b % 4) == (a - a % 4))) [
  | inl same ↦ ground (arith, same, byte_of-other (m (a - a % 4)) (a % 4) (b % 4) v lt)
  | inr other ↦ ground (arith, other)
]

-- The copied bytes come one by one; the other bytes stay.
copy_bytes-frame :
    (k i dst src : ℕ) (m : Memory) (b : ℕ)
    → (b < dst + i) ⊎ (dst + i + k ≤ b)
    → byte_at (copy_bytes k i dst src m) b ≡ byte_at m b
unfolding copy_bytes
copy_bytes-frame zero i dst src m b out = refl
copy_bytes-frame (suc k) i dst src m b out =
    copy_bytes-frame k (i + 1) dst src (set_byte m (dst + i) (byte_at m (src + i))) b (omega arith)
    ∙ byte_at-other m (dst + i) (byte_at m (src + i)) b (byte_at-lt m (src + i)) (omega arith)

pub copy_bytes_lem :
    (k i dst src : ℕ) (m : Memory) (j : ℕ)
    → Apart dst (i + k) src (i + k)
    → i ≤ j
    → j < i + k
    → byte_at (copy_bytes k i dst src m) (dst + j) ≡ byte_at m (src + j)
unfolding copy_bytes
copy_bytes_lem zero i dst src m j apart lo hi = absurd (omega arith)
copy_bytes_lem (suc k) i dst src m j apart lo hi =
    let v = byte_at m (src + i) in
    elim (Bool-cases (j == i)) [
      | inl here ↦
          let next = set_byte m (dst + i) v in
          let same : i ≡ j = ground (arith, here) in
          subst (λ n. byte_at (copy_bytes k (i + 1) dst src next) (dst + n) ≡ byte_at m (src + n))
            same
            (copy_bytes-frame k (i + 1) dst src next (dst + i) (omega arith)
              ∙ byte_at-set m (dst + i) v (byte_at-lt m (src + i)))
      | inr later ↦
          copy_bytes_lem k (i + 1) dst src (set_byte m (dst + i) v) j (ground (arith, apart))
            (ground (arith, later)) (omega arith)
          ∙ byte_at-other m (dst + i) v (src + j) (byte_at-lt m (src + i)) (ground (arith, apart))
    ]

-- No word outside the target is written, where 4 divides its address.
pub copy_bytes-words :
    (k i dst src : ℕ) (m : Memory) (x : ℕ)
    → dst % 4 ≡ 0
    → (x < dst) ⊎ (dst + i + k ≤ x)
    → copy_bytes k i dst src m x ≡ m x
unfolding copy_bytes set_byte
copy_bytes-words zero i dst src m x al out = refl
copy_bytes-words (suc k) i dst src m x al out =
    copy_bytes-words k (i + 1) dst src (set_byte m (dst + i) (byte_at m (src + i))) x al
      (omega arith)
    ∙ ground arith

-- A byte depends on its word.
pub byte_at-word :
    (m g : Memory) (a : ℕ) → g (a - a % 4) ≡ m (a - a % 4) → byte_at g a ≡ byte_at m a
unfolding byte_at
byte_at-word m g a e = ap (λ w. byte_of w (a % 4)) e
