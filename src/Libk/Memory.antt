-- ===== src/Libk/Memory.antt =====
-- Byte memory: what is stored at each address. All addresses of a 32-bit machine are numbers, and
-- a C object is a run of bytes.
use n00b_os.Prelude.{
  ℕ, zero, suc, ◌+◌, ◌≤◌, ◌<◌, ◌≡◌, ◌⊎◌, inl, inr, refl, ap, ap₂, List, [], ◌∷◌, arith, ◌==◌,
  if◌then◌else◌, length,
}

abbrev pub Memory : Type 0
Memory = ℕ → ℕ

-- `*a = v`
abbrev pub store : Memory → ℕ → ℕ → Memory
store m a v b = if b == a then v else m b

-- the run of `n` bytes from `p` on and the run of `k` bytes from `q` on share no byte
abbrev pub Apart : ℕ → ℕ → ℕ → ℕ → Type 0
Apart p n q k = (p + n ≤ q) ⊎ (q + k ≤ p)

pub Apart-symm : (p n q k : ℕ) → Apart p n q k → Apart q k p n
Apart-symm p n q k (inl h) = inr h
Apart-symm p n q k (inr h) = inl h

-- the `n` bytes from address `p` on
unfoldable pub bytes : Memory → ℕ → ℕ → List ℕ
bytes m p zero = []
bytes m p (suc n) = m p ∷ bytes m (p + 1) n

pub length-bytes : (m : Memory) (p n : ℕ) → length (bytes m p n) ≡ n
unfolding bytes
length-bytes m p zero = refl
length-bytes m p (suc n) = ap suc (length-bytes m (p + 1) n)

-- Two runs of bytes are equal when they are so at each offset.
pub bytes_ext :
    (m g : Memory) (p q n : ℕ)
    → ((i : ℕ) → i < n → m (p + i) ≡ g (q + i))
    → bytes m p n ≡ bytes g q n
unfolding bytes
bytes_ext m g p q zero h = refl
bytes_ext m g p q (suc n) h =
    ap₂ ◌∷◌ (ground (arith, h 0))
      (bytes_ext m g (p + 1) (q + 1) n (λ i lt. ground (arith, h (i + 1))))

-- bytes that nothing has written stay
pub bytes-frame :
    (m g : Memory) (p n : ℕ) → ((a : ℕ) → p ≤ a → a < p + n → g a ≡ m a) → bytes g p n ≡ bytes m p n
bytes-frame m g p n h = bytes_ext g m p p n (λ i lt. h (p + i) (omega arith) (omega arith))
