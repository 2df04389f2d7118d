-- ===== src/Libk/Mem/Laws.antt =====
-- What the memory functions of libk/src/all/string leave in memory, at every address.
use n00b_os.Prelude.{
  ℕ, zero, suc, ◌+◌, ◌-◌, ◌%◌, ◌≤◌, ◌<◌, ◌≡◌, refl, ◌⊎◌, inl, inr, ◌&&◌, List, ◌∷◌, arith, ltb, leb,
  if◌then◌else◌, ℤ, pos, minus_one,
}
use n00b_os.Libk.Memory.{Memory, Apart, store, bytes, bytes_ext, bytes-frame}
use n00b_os.Libk.Mem.{copy_up, copy_down, fill, compare_from, memcpy, memmove, memset, memcmp}

-- `m` with the `n` bytes from `src` on copied to `dst`
abbrev pub copied : Memory → ℕ → ℕ → ℕ → Memory
copied m dst src n a = if leb dst a && ltb a (dst + n) then m (src + (a - dst)) else m a

copy_up_lem :
    (k i dst src : ℕ) (m : Memory) (a : ℕ)
    → (dst ≤ src) ⊎ (src + (i + k) ≤ dst)
    → copy_up k i dst src m a
      ≡ (if leb (dst + i) a && ltb a (dst + i + k) then m (src + (a - dst)) else m a)
unfolding copy_up
copy_up_lem zero i dst src m a h = ground arith
copy_up_lem (suc k) i dst src m a (inl h) =
    ground (arith, copy_up_lem k (i + 1) dst src (store m (dst + i) (m (src + i))) a (inl h))
copy_up_lem (suc k) i dst src m a (inr h) =
    let apart : src + (i + 1 + k) ≤ dst = omega arith in
    ground (arith, copy_up_lem k (i + 1) dst src (store m (dst + i) (m (src + i))) a (inr apart))

copy_down_lem :
    (k dst src : ℕ) (m : Memory) (a : ℕ)
    → src ≤ dst
    → copy_down k dst src m a ≡ copied m dst src k a
unfolding copy_down
copy_down_lem zero dst src m a h = ground arith
copy_down_lem (suc k) dst src m a h =
    ground (arith, copy_down_lem k dst src (store m (dst + k) (m (src + k))) a h)

-- If the target does not lie above the source and overlap it, `memcpy` copies the `size` source
-- bytes as they were before the call, and changes no other byte.
pub memcpy_lem :
    (m : Memory) (dst src size a : ℕ)
    → (dst ≤ src) ⊎ (src + size ≤ dst)
    → memcpy m dst src size a ≡ copied m dst src size a
unfolding memcpy
memcpy_lem m dst src size a (inl h) = ground (arith, copy_up_lem size 0 dst src m a (inl h))
memcpy_lem m dst src size a (inr h) =
    let apart : src + (0 + size) ≤ dst = omega arith in
    ground (arith, copy_up_lem size 0 dst src m a (inr apart))

-- away from overlap `memcpy_lem` applies
apart_lem :
    (m : Memory) (dst src n a : ℕ) → Apart dst n src n → memcpy m dst src n a ≡ copied m dst src n a
apart_lem m dst src n a (inl h) = memcpy_lem m dst src n a (inl (omega arith))
apart_lem m dst src n a (inr h) = memcpy_lem m dst src n a (inr h)

pub memcpy-copies :
    (m : Memory) (dst src n : ℕ)
    → Apart dst n src n
    → bytes (memcpy m dst src n) dst n ≡ bytes m src n
memcpy-copies m dst src n apart =
    bytes_ext (memcpy m dst src n) m dst src n
      (λ i lt. ground (arith, apart_lem m dst src n (dst + i) apart, index i))
  where
    index : (i : ℕ) → dst + i - dst ≡ i
    index i = omega arith

pub memcpy-outside :
    (m : Memory) (dst src n a : ℕ)
    → Apart dst n src n
    → (a < dst) ⊎ (dst + n ≤ a)
    → memcpy m dst src n a ≡ m a
memcpy-outside m dst src n a apart out = ground (arith, apart_lem m dst src n a apart)

pub memcpy-frame :
    (m : Memory) (dst src n p k : ℕ)
    → Apart dst n src n
    → Apart dst n p k
    → bytes (memcpy m dst src n) p k ≡ bytes m p k
memcpy-frame m dst src n p k apart (inl out) =
    bytes-frame m (memcpy m dst src n) p k
      (λ a lo hi. ground (arith, apart_lem m dst src n a apart))
memcpy-frame m dst src n p k apart (inr out) =
    bytes-frame m (memcpy m dst src n) p k
      (λ a lo hi. ground (arith, apart_lem m dst src n a apart))

-- `memmove` copies the `size` source bytes as they were before the call, however the two regions
-- overlap, and changes no other byte.
pub memmove_lem :
    (m : Memory) (dst src size a : ℕ) → memmove m dst src size a ≡ copied m dst src size a
unfolding memmove
memmove_lem m dst src size a = ground (arith, up, copy_down_lem size dst src m a)
  where
    up : dst ≤ src → copy_up size 0 dst src m a ≡ copied m dst src size a
    up h = ground (arith, copy_up_lem size 0 dst src m a (inl h))

fill_lem :
    (k i buf value : ℕ) (m : Memory) (a : ℕ)
    → fill k i buf value m a ≡ (if leb (buf + i) a && ltb a (buf + i + k) then value % 256 else m a)
unfolding fill
fill_lem zero i buf value m a = ground arith
fill_lem (suc k) i buf value m a =
    ground (arith, fill_lem k (i + 1) buf value (store m (buf + i) (value % 256)) a)

-- `memset` writes the low byte of `value` to each of the `size` bytes, and changes no other byte.
pub memset_lem :
    (m : Memory) (buf value size a : ℕ)
    → memset m buf value size a ≡ (if leb buf a && ltb a (buf + size) then value % 256 else m a)
unfolding memset
memset_lem m buf value size a = ground (arith, fill_lem size 0 buf value m a)

-- the order of two runs of bytes, by their first difference
unfoldable pub lex : List ℕ → List ℕ → ℤ
lex (x ∷ xs) (y ∷ ys) = if ltb x y then minus_one else if ltb y x then pos 1 else lex xs ys
lex _ _ = pos 0

compare_from-lex :
    (k i a b : ℕ) (m : Memory)
    → compare_from k i a b m ≡ lex (bytes m (a + i) k) (bytes m (b + i) k)
unfolding compare_from lex bytes
compare_from-lex zero i a b m = refl
compare_from-lex (suc k) i a b m =
    ground (arith, compare_from-lex k (i + 1) a b m, shift a, shift b)
  where
    shift : (p : ℕ) → p + i + 1 ≡ p + (i + 1)
    shift p = omega arith

-- `memcmp` is the lexicographic order of the two runs of bytes.
pub memcmp-lex :
    (m : Memory) (a b size : ℕ) → memcmp m a b size ≡ lex (bytes m a size) (bytes m b size)
unfolding memcmp
memcmp-lex m a b size = ground (arith, compare_from-lex size 0 a b m)
