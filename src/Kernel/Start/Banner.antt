-- ===== src/Kernel/Start/Banner.antt =====
-- The banner is the first bytes of its file.
use n00b_os.Prelude.{
  ℕ, zero, suc, ◌+◌, ◌-◌, ◌%◌, ◌^◌, ◌<◌, ◌≤◌, ◌≡◌, ◌≢◌, ◌⊎◌, refl, ap, ◌∙◌, Bool-cases, inl, inr,
  Option, some, arith, ltb, min, ltb→lt, ◌==◌,
}
use n00b_os.Libk.Memory.{Memory, store, Apart}
use n00b_os.Libk.Mem.{memset}
use n00b_os.Libk.Mem.Laws.{memset_lem}
use n00b_os.Libk.Stdio.{ferror}
use n00b_os.Libk.Stdio.Stream.{fgetc-more, fgetc-end}
use n00b_os.Kernel.Vfs.{FileHandle}
use n00b_os.Kernel.Tarfs.{TarRegData, v_reg, node_rdwr}
use n00b_os.Kernel.Start.{read_banner, make_banner}

-- What the loop leaves, from the index `i` on, in the file `data'` at `at`: `count` characters at `message`.
Banner :
    TarRegData → ℕ → ℕ → FileHandle → Memory → ℕ → ℕ → Option (ℕ × FileHandle × Memory) → Type 0
Banner data' out at fp m message i r =
    let count = min (data'.size - at) (77 - i) in
    (fp' : FileHandle) × (m' : Memory) × (r ≡ some (i + count, fp', m'))
    × (ferror fp' ≡ ferror fp)
    × ((j : ℕ) → j < count → m' (message + i + j) ≡ m (data'.content + at + j) % 256)
    × ((a : ℕ) → a ≢ out → (a < message + i) ⊎ (message + i + count ≤ a) → m' a ≡ m a)

read_banner-Banner :
    (fuel : ℕ) (data' : TarRegData) (out : ℕ) (fp : FileHandle) (m : Memory) (message i : ℕ)
    → data'.size < 2 ^ 32
    → fp.pos ≤ data'.size
    → i ≤ 77
    → 77 - i < fuel
    → (out < message) ⊎ (message + 77 ≤ out)
    → (out < data'.content) ⊎ (data'.content + data'.size ≤ out)
    → Apart message 77 data'.content data'.size
    → Banner data' out fp.pos fp m message i
        (read_banner fuel (node_rdwr v_reg data') out fp m message i)
unfolding Banner read_banner
read_banner-Banner zero data' out fp m message i small inside le lt om od apart =
    absurd (omega arith)
read_banner-Banner (suc fuel) data' out fp m message i small inside le lt om od apart =
    elim (Bool-cases (ltb fp.pos data'.size)) [
      | inr at_end ↦
          let read = fgetc-end data' out fp m small (ground (arith, at_end)) in
          (
            record fp { eof = 1 },
            m,
            ground (arith, read, at_end),
            refl,
            λ j jl. ground (arith, at_end),
            λ a ne out. refl,
          )
      | inl more ↦
          let read = fgetc-more data' out fp m small (ltb→lt fp.pos data'.size more) in
          let c = m (data'.content + fp.pos) in
          let m1 = store m out c in
          elim (Bool-cases (ltb i 77)) [
            | inr full ↦ (
              record fp { pos = fp.pos + 1 },
              m1,
              ground (arith, read, full),
              refl,
              λ j jl. ground (arith, full),
              λ a ne far. ground (arith, ne),
            )
            | inl room ↦
                let m2 = store m1 (message + i) (c % 256) in
                let ih =
                  read_banner-Banner fuel data' out (record fp { pos = fp.pos + 1 }) m2 message
                    (i + 1) small (omega (arith, ltb→lt fp.pos data'.size more))
                    (omega (arith, ltb→lt i 77 room)) (omega (arith, ltb→lt i 77 room)) om od
                    apart in
                let k = data'.content + fp.pos in
                (
                  ih.0,
                  ih.1,
                  ground (arith, read, room, more, ih.2),
                  ih.3,
                  λ j jl. elim (Bool-cases (j == 0)) [
                    | inl first ↦ ground (arith, first, ih.5 (message + i))
                    | inr later ↦ ground (arith, later, more, room, jl, ih.4 (j - 1))
                  ],
                  λ a ne far. ground (arith, ne, far, more, room, ih.5 a),
                )
          ]
    ]

-- `print_banner`, on a regular file whose error mark is clear and that stands at its start, with fuel above
-- 77, where `message` with 78 bytes, `stars` with 82, the file and the variable of `fgetc` lie apart: it
-- ends with the file's first bytes, at most 77, in `message` and a 0 behind them, and with four stars more
-- than that in `stars` and a 0 behind them. So with a file of 77 bytes or more, both zeros are written one
-- byte behind the arrays, which have 77 and 81 bytes.
pub make_banner_lem :
    (fuel : ℕ) (data' : TarRegData) (out : ℕ) (fp : FileHandle) (m : Memory) (message stars : ℕ)
    → data'.size < 2 ^ 32
    → fp.pos ≡ 0
    → ferror fp ≡ 0
    → 77 < fuel
    → (out < message) ⊎ (message + 78 ≤ out)
    → (out < data'.content) ⊎ (data'.content + data'.size ≤ out)
    → Apart message 78 data'.content data'.size
    → Apart stars 82 message 78
    → let i = min data'.size 77 in
      (fp' : FileHandle) × (m' : Memory) × (make_banner fuel
          (node_rdwr v_reg data')
          out
          fp
          m
          message
          stars
        ≡ some (i, fp', m'))
      × ((j : ℕ) → j < i → m' (message + j) ≡ m (data'.content + j) % 256)
      × (m' (message + i) ≡ 0)
      × ((j : ℕ) → j < i + 4 → m' (stars + j) ≡ 42)
      × (m' (stars + i + 4) ≡ 0)
unfolding make_banner Banner
make_banner_lem fuel data' out fp m message stars small start clear lt om od apart far =
    let read =
      read_banner-Banner fuel data' out fp m message 0 small (omega arith) (omega arith)
        (omega arith) (ground arith) od (ground arith) in
    let i = min data'.size 77 in
    let count : 0 + min (data'.size - fp.pos) (77 - 0) ≡ i = ground arith in
    let done : read_banner fuel (node_rdwr v_reg data') out fp m message 0
        ≡ some (i, read.0, read.1) =
      read.2 ∙ ap (λ n. some (n, read.0, read.1)) count in
    let ended = store read.1 (message + i) 0 in
    let m' = store (memset ended stars 42 (i + 4)) (stars + i + 4) 0 in
    (
      read.0,
      m',
      ground (arith, done, read.3, clear),
      λ j jl. ground (arith, memset_lem ended stars 42 (i + 4) (message + j), read.4 j),
      ground (arith, memset_lem ended stars 42 (i + 4) (message + i)),
      λ j jl. ground (arith, memset_lem ended stars 42 (i + 4) (stars + j)),
      ground arith,
    )
