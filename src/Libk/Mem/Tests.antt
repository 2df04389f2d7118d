-- ===== src/Libk/Mem/Tests.antt =====
-- Copies in a memory that holds 10 to 14 at the addresses 1 to 5.
use n00b_os.Prelude.{◌+◌, ◌≡◌, refl, inl, arith, [], ◌∷◌, ltb, leb, ◌&&◌, if◌then◌else◌, ◌%◌}
use n00b_os.Libk.Memory.{Memory, bytes}
use n00b_os.Libk.Mem.{copy_up, copy_down, memcpy, memmove, memset, memcmp}
use n00b_os.Libk.Mem.Laws.{copied, lex, memcpy_lem, memmove_lem, memset_lem, memcmp-lex}

abbrev memory : Memory
memory a = if leb 1 a && leb a 5 then a + 9 else 0

shift_up : bytes (memmove memory 2 1 4) 1 5 ≡ 10 ∷ 10 ∷ 11 ∷ 12 ∷ 13 ∷ []
unfolding bytes memmove copy_down copy_up
shift_up = refl

-- `memcpy` to a higher address that overlaps repeats the first byte.
overlap_up : bytes (memcpy memory 2 1 4) 1 5 ≡ 10 ∷ 10 ∷ 10 ∷ 10 ∷ 10 ∷ []
unfolding bytes memcpy copy_up
overlap_up = refl

memcpy_lem_test : memcpy memory 1 3 3 2 ≡ copied memory 1 3 3 2
memcpy_lem_test = memcpy_lem memory 1 3 3 2 (inl (omega arith))

memmove_lem_example : memmove memory 2 1 4 5 ≡ copied memory 2 1 4 5
memmove_lem_example = memmove_lem memory 2 1 4 5

memset_lem_example :
    memset memory 2 300 2 3 ≡ (if leb 2 3 && ltb 3 (2 + 2) then 300 % 256 else memory 3)
memset_lem_example = memset_lem memory 2 300 2 3

memcmp-lex_example : memcmp memory 1 2 3 ≡ lex (bytes memory 1 3) (bytes memory 2 3)
memcmp-lex_example = memcmp-lex memory 1 2 3
