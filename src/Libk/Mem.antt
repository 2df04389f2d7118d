-- ===== src/Libk/Mem.antt =====
-- libk/src/all/string: memcpy, memmove, memset and memcmp. A loop runs on the number of rounds that
-- are left, which its bound gives.
pub mod Laws
mod Tests
use n00b_os.Prelude.{ℕ, zero, suc, ◌+◌, ◌%◌, ltb, if◌then◌else◌, ℤ, pos, minus_one}
use n00b_os.Libk.Memory.{Memory, store}

-- `for (size_t i = 0; i < size; i++) dst[i] = src[i];`
unfoldable pub copy_up : ℕ → ℕ → ℕ → ℕ → Memory → Memory
copy_up zero i dst src m = m
copy_up (suc k) i dst src m = copy_up k (i + 1) dst src (store m (dst + i) (m (src + i)))

-- `for (size_t i = size; i != 0; i--) dst[i-1] = src[i-1];`
copy_down : ℕ → ℕ → ℕ → Memory → Memory
copy_down zero dst src m = m
copy_down (suc i) dst src m = copy_down i dst src (store m (dst + i) (m (src + i)))

unfoldable pub memcpy : Memory → ℕ → ℕ → ℕ → Memory
memcpy m dst src size = copy_up size 0 dst src m

pub memmove : Memory → ℕ → ℕ → ℕ → Memory
memmove m dst src size = if ltb dst src then copy_up size 0 dst src m else copy_down size dst src m

fill : ℕ → ℕ → ℕ → ℕ → Memory → Memory
fill zero i buf value m = m
fill (suc k) i buf value m = fill k (i + 1) buf value (store m (buf + i) (value % 256))

pub memset : Memory → ℕ → ℕ → ℕ → Memory
memset m buf value size = fill size 0 buf value m

compare_from : ℕ → ℕ → ℕ → ℕ → Memory → ℤ
compare_from zero i a b m = pos 0
compare_from (suc k) i a b m =
    if ltb (m (a + i)) (m (b + i))
    then minus_one
    else if ltb (m (b + i)) (m (a + i))
    then pos 1
    else compare_from k (i + 1) a b m

pub memcmp : Memory → ℕ → ℕ → ℕ → ℤ
memcmp m a b size = compare_from size 0 a b m
