-- ===== src/Kernel/Shell/Line.antt =====
-- `readline` gives what was typed.
use n00b_os.Prelude.{
  ℕ, ◌+◌, ◌%◌, ◌<◌, ◌≤◌, ◌≡◌, inl, inr, refl, ap, ◌∙◌, true, false, Bool-cases, some, List, [], ◌∷◌,
  ◌++◌, map, append_assoc, arith, length, length-append, ◌==◌,
}
use n00b_os.Libk.Allocator.{Allocator}
use n00b_os.Kernel.Shell.{LineBuffer, ends_line, put_char, read_chars, readline}
use n00b_os.Kernel.Shell.Words.{Plenty}

-- none of these characters ends a line
abbrev pub Inline : List ℕ → Type 0
Inline [] = Unit
Inline (c ∷ cs) = (ends_line c ≡ false) × Inline cs

abbrev pub stored : List ℕ → List ℕ
stored cs = map (λ c. c % 256) cs

-- the allocator gives addresses of which `Q` holds
abbrev pub Gives : Allocator → (ℕ → Type 0) → Type 0
Gives A Q =
    ((size : ℕ) (heap : A.State) → Q (A.malloc size heap).0)
    × ((p size : ℕ) (heap : A.State) → Q (A.realloc p size heap).0)

module _ (A : Allocator) (plenty : Plenty A) (Q : ℕ → Type 0) (gives : Gives A Q) where
  put_char_lem :
      (b : LineBuffer) (c : ℕ) (heap : A.State)
      → length b.bytes < b.buffer_size
      → Q b.at
      → (b' : LineBuffer) × (heap' : A.State) × (put_char A b c heap ≡ some (b', heap'))
        × (b'.bytes ≡ b.bytes ++ (c % 256 ∷ []))
        × (length b'.bytes < b'.buffer_size)
        × Q b'.at
  unfolding put_char
  put_char_lem b c heap room at =
      let bytes = b.bytes ++ (c % 256 ∷ []) in
      let more = length-append b.bytes (c % 256 ∷ []) in
      let got = A.realloc b.at (b.buffer_size + 32) heap in
      elim (Bool-cases (length bytes == b.buffer_size)) [
        | inl full ↦ (
          record { at = got.0; bytes = bytes; buffer_size = b.buffer_size + 32 },
          got.1,
          ground (arith, full, plenty.1 b.at (b.buffer_size + 32) heap),
          refl,
          ground (arith, full),
          gives.1 b.at (b.buffer_size + 32) heap,
        )
        | inr free ↦ (
          record b { bytes = bytes },
          heap,
          ground (arith, free),
          refl,
          ground (arith, free, more),
          at,
        )
      ]

  read_chars_lem :
      (cs : List ℕ) (last : ℕ) (input : List ℕ) (b : LineBuffer) (heap : A.State)
      → Inline cs
      → ends_line last ≡ true
      → length b.bytes < b.buffer_size
      → Q b.at
      → (b' : LineBuffer) × (heap' : A.State) × (read_chars A (cs ++ (last ∷ input)) b heap
          ≡ some (b', heap', input))
        × (b'.bytes ≡ b.bytes ++ (stored cs ++ (0 ∷ [])))
        × (length b'.bytes ≤ b'.buffer_size)
        × Q b'.at
  unfolding read_chars
  read_chars_lem [] last input b heap h e room at = (
    record b { bytes = b.bytes ++ (0 ∷ []) },
    heap,
    ground (arith, e),
    refl,
    omega (arith, length-append b.bytes (0 ∷ [])),
    at,
  )
  read_chars_lem (c ∷ cs) last input b heap h e room at =
      let put = put_char_lem b c heap room at in
      let ih = read_chars_lem cs last input put.0 put.1 h.1 e put.4 put.5 in
      (
        ih.0,
        ih.1,
        ground (arith, h.0, put.2, ih.2),
        ih.3
            ∙ ap (λ l. l ++ (stored cs ++ (0 ∷ []))) put.3
            ∙ append_assoc b.bytes (c % 256 ∷ []) (stored cs ++ (0 ∷ [])),
        ih.4,
        ih.5,
      )

  -- `readline`, where memory does not run out and the keys typed are `cs`, none of which ends a line, then
  -- one that does: it returns the bytes of `cs` and a final 0, all inside the buffer, and leaves the keys
  -- that follow; the buffer is a block that the allocator gives.
  pub readline_lem :
      (cs : List ℕ) (last : ℕ) (input : List ℕ) (heap : A.State)
      → Inline cs
      → ends_line last ≡ true
      → (b : LineBuffer) × (heap' : A.State) × (readline A (cs ++ (last ∷ input)) heap
          ≡ some (b, heap', input))
        × (b.bytes ≡ stored cs ++ (0 ∷ []))
        × (length b.bytes ≤ b.buffer_size)
        × Q b.at
  unfolding readline
  readline_lem cs last input heap h e =
      let got = A.malloc 32 heap in
      let read =
        read_chars_lem cs last input (record { at = got.0; bytes = []; buffer_size = 32 }) got.1 h e
          (omega arith) (gives.0 32 heap) in
      (read.0, read.1, ground (arith, plenty.0 32 heap, read.2), read.3, read.4, read.5)
