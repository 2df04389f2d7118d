-- ===== src/Kernel/Shell/Cat.antt =====
-- kernel/src/all/test/shell.c: the command `cat`, from the opened file up to what it prints.
use n00b_os.Prelude.{
  ℕ, zero, suc, ◌+◌, ◌*◌, ◌%◌, ◌^◌, ◌<◌, ◌≤◌, ◌≡◌, ◌⊎◌, refl, sym, ap, ap₂, ◌∙◌, ◌&&◌, Bool-cases,
  inl, inr, Option, none, some, List, [], ◌∷◌, ◌++◌, map, append-nil, append_assoc, arith, length,
  length-append, ltb, leb, ◌==◌, if◌then◌else◌, ℤ,
}
use n00b_os.Libk.Memory.{Memory, store, bytes, bytes-frame}
use n00b_os.Libk.Allocator.{Allocator}
use n00b_os.Libk.Stdio.{fgetc, ferror}
use n00b_os.Libk.Stdio.Stream.{fgetc-more, fgetc-end}
use n00b_os.Kernel.Vfs.{FileHandle, Rdwr}
use n00b_os.Kernel.Tarfs.{TarRegData, v_reg, node_rdwr}
use n00b_os.Kernel.Shell.{LineBuffer}
use n00b_os.Kernel.Shell.Words.{Plenty}
use n00b_os.Kernel.Shell.Line.{stored}

-- a non printable `char`, which is signed, becomes a dot
abbrev pub shown : ℕ → ℕ
shown c = if leb 32 c && ltb c 128 then c else 46

module _ (A : Allocator) where
  -- `buffer[i++] = c`, and twice the room where there is none left; `none` is no memory
  cat_put : LineBuffer → ℕ → A.State → Option (LineBuffer × A.State)
  cat_put b c heap =
      let bytes = b.bytes ++ (c % 256 ∷ []) in
      let buffer_size = b.buffer_size * 2 % 2 ^ 32 in
      let (at, heap') = A.realloc b.at buffer_size heap in
      if length bytes == b.buffer_size
      then if at == 0
        then none
        else some (record { at = at; bytes = bytes; buffer_size = buffer_size }, heap')
      else some (record b { bytes = bytes }, heap)

  -- the loop over the characters of the file
  read_file :
      ℕ
      → Rdwr
      → ℕ
      → FileHandle
      → Memory
      → LineBuffer
      → A.State
      → Option (LineBuffer × FileHandle × Memory × A.State)
  unfolding cat_put
  read_file zero rdwr out fp m b heap = none
  read_file (suc fuel) rdwr out fp m b heap =
      let (c, fp', m') = fgetc rdwr out fp m in
      elim c [
        | ℤ.pos k ↦ elim (cat_put b k heap) [
          | none ↦ none
          | some (b', heap') ↦
              let rest = read_file fuel rdwr out fp' m' b' heap' in
              if ltb (length b.bytes) b.buffer_size then rest else some (b, fp', m', heap)
        ]
        | ℤ.negsuc k ↦ some (b, fp', m', heap)
      ]

  -- What is printed, or `none` inside where the read failed; the outer `none` is no memory.
  pub builtin_cat_text :
      ℕ → Rdwr → ℕ → FileHandle → Memory → A.State → Option (Option (List ℕ) × A.State)
  unfolding read_file
  builtin_cat_text fuel rdwr out fp m heap =
      let (at, heap') = A.malloc 16 heap in
      if at == 0
      then none
      else elim (read_file fuel rdwr out fp m (record { at = at; bytes = []; buffer_size = 16 })
          heap') [
            | none ↦ none
            | some (b, fp', m', heap'') ↦
                some
                  (if ferror fp' == 0 then some (map shown b.bytes) else none, A.free b.at heap'')
          ]

module _ (A : Allocator) (plenty : Plenty A) where
  cat_put_lem :
      (b : LineBuffer) (c : ℕ) (heap : A.State)
      → length b.bytes < b.buffer_size
      → length b.bytes + 1 < 2 ^ 31
      → (b' : LineBuffer) × (heap' : A.State) × (cat_put A b c heap ≡ some (b', heap'))
        × (b'.bytes ≡ b.bytes ++ (c % 256 ∷ []))
        × (length b'.bytes < b'.buffer_size)
  unfolding cat_put
  cat_put_lem b c heap room small =
      let bytes = b.bytes ++ (c % 256 ∷ []) in
      let more = length-append b.bytes (c % 256 ∷ []) in
      let size = b.buffer_size * 2 % 2 ^ 32 in
      let got = A.realloc b.at size heap in
      elim (Bool-cases (length bytes == b.buffer_size)) [
        | inl full ↦ (
          record { at = got.0; bytes = bytes; buffer_size = size },
          got.1,
          ground (arith, full, plenty.1 b.at size heap),
          refl,
          ground (arith, full, more),
        )
        | inr free ↦ (
          record b { bytes = bytes },
          heap,
          ground (arith, free),
          refl,
          ground (arith, free, more),
        )
      ]

  -- what the loop leaves of a file with `n` bytes from `p` on
  abbrev Taken :
      Memory
      → FileHandle
      → LineBuffer
      → ℕ
      → ℕ
      → Option (LineBuffer × FileHandle × Memory × A.State)
      → Type 0
  Taken m fp b p n r =
      (b' : LineBuffer) × (fp' : FileHandle) × (m' : Memory) × (heap' : A.State) × (r
        ≡ some (b', fp', m', heap'))
      × (b'.bytes ≡ b.bytes ++ stored (bytes m p n))
      × (length b'.bytes < b'.buffer_size)
      × (ferror fp' ≡ ferror fp)

  read_file-Taken :
      (n fuel : ℕ) (data' : TarRegData) (out : ℕ) (fp : FileHandle) (m : Memory) (b : LineBuffer)
      (heap : A.State)
      → data'.size < 2 ^ 31
      → fp.pos + n ≡ data'.size
      → n < fuel
      → (out < data'.content) ⊎ (data'.content + data'.size ≤ out)
      → length b.bytes < b.buffer_size
      → length b.bytes ≤ fp.pos
      → Taken m fp b
          (data'.content + fp.pos)
          n
          (read_file A fuel (node_rdwr v_reg data') out fp m b heap)
  unfolding read_file bytes
  read_file-Taken n zero data' out fp m b heap small at lt od room short = absurd (omega arith)
  read_file-Taken zero (suc fuel) data' out fp m b heap small at lt od room short =
      let read = fgetc-end data' out fp m (omega arith) (omega arith) in
      (
        b,
        record fp { eof = 1 },
        m,
        heap,
        ground (arith, read),
        sym (append-nil b.bytes),
        room,
        refl,
      )
  read_file-Taken (suc n) (suc fuel) data' out fp m b heap small at lt od room short =
      let c = m (data'.content + fp.pos) in
      let m1 = store m out c in
      let read = fgetc-more data' out fp m (omega arith) (omega arith) in
      let put = cat_put_lem b c heap room (omega arith) in
      let longer : length put.0.bytes ≤ fp.pos + 1 =
        omega (arith, ap length put.3, length-append b.bytes (c % 256 ∷ [])) in
      let ih =
        read_file-Taken n fuel data' out (record fp { pos = fp.pos + 1 }) m1 put.0 put.1 small
          (omega arith) (omega arith) od put.4 longer in
      let next : data'.content + (fp.pos + 1) ≡ data'.content + fp.pos + 1 = omega arith in
      let rest : bytes m1 (data'.content + (fp.pos + 1)) n
          ≡ bytes m (data'.content + fp.pos + 1) n =
        bytes-frame m m1 (data'.content + (fp.pos + 1)) n (λ a lo hi. ground arith)
        ∙ ap (λ q. bytes m q n) next in
      (
        ih.0,
        ih.1,
        ih.2,
        ih.3,
        ground (arith, read, put.2, room, ih.4),
        ih.5
            ∙ ap₂ (λ l k. l ++ stored k) put.3 rest
            ∙ append_assoc b.bytes (c % 256 ∷ []) (stored (bytes m (data'.content + fp.pos + 1) n)),
        ih.6,
        ih.7,
      )

  -- `cat` of a regular file with less than 2^31 bytes, whose error mark is clear, from its start, with fuel
  -- above its size, where memory does not run out and the variable of `fgetc` lies outside of the file: it
  -- ends, and prints all the file's bytes, those that are not printable as dots.
  pub builtin_cat_text_lem :
      (fuel : ℕ) (data' : TarRegData) (out : ℕ) (fp : FileHandle) (m : Memory) (heap : A.State)
      → data'.size < 2 ^ 31
      → fp.pos ≡ 0
      → ferror fp ≡ 0
      → data'.size < fuel
      → (out < data'.content) ⊎ (data'.content + data'.size ≤ out)
      → (heap' : A.State) × (builtin_cat_text A fuel (node_rdwr v_reg data') out fp m heap
          ≡ some (some (map shown (stored (bytes m data'.content data'.size))), heap'))
  unfolding builtin_cat_text
  builtin_cat_text_lem fuel data' out fp m heap small start clear lt od =
      let got = A.malloc 16 heap in
      let empty : LineBuffer = record { at = got.0; bytes = []; buffer_size = 16 } in
      let here : data'.content + fp.pos ≡ data'.content = omega arith in
      let all =
        read_file-Taken data'.size fuel data' out fp m empty got.1 small (omega arith) lt od
          (omega arith) (omega arith) in
      let text : map shown all.0.bytes ≡ map shown (stored (bytes m data'.content data'.size)) =
        ap (map shown) (all.5 ∙ ap (λ q. stored (bytes m q data'.size)) here) in
      (A.free all.0.at all.3, ground (arith, plenty.0 16 heap, all.4, all.7, clear, text))
