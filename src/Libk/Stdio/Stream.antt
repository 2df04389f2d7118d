-- ===== src/Libk/Stdio/Stream.antt =====
-- Reading a file to its end by `fgetc`.
use n00b_os.Prelude.{
  ℕ, ◌+◌, ◌%◌, ◌^◌, ◌<◌, ◌≡◌, ap, ap₂, ◌∙◌, arith, ltb, ◌==◌, if◌then◌else◌, ℤ, pos,
}
use n00b_os.Libk.Memory.{Memory, store}
use n00b_os.Libk.Mem.{memcpy, copy_up}
use n00b_os.Libk.Stdio.{fgetc, eof}
use n00b_os.Kernel.Vfs.{FileHandle, vn_rdwr}
use n00b_os.Kernel.Tarfs.{TarRegData, remaining, v_reg, node_rdwr}

-- what `fgetc` returns where the node gave `k` bytes
got : TarRegData → ℕ → FileHandle → Memory → ℕ → ℤ × FileHandle × Memory
got data' out stream m k =
    let m' = memcpy m out (data'.content + stream.pos) k in
    let moved = record stream { pos = (stream.pos + k) % 2 ^ 32 } in
    if k == 1 then (pos (m' out), moved, m') else (eof, record moved { eof = 1 }, m')

fgetc-got :
    (data' : TarRegData) (out k : ℕ) (stream : FileHandle) (m : Memory)
    → (if ltb (remaining data' stream.pos) 1 then remaining data' stream.pos else 1) ≡ k
    → fgetc (node_rdwr v_reg data') out stream m ≡ got data' out stream m k
unfolding fgetc vn_rdwr node_rdwr got
fgetc-got data' out k stream m is = ap (got data' out stream m) is

memcpy-one : (m : Memory) (dst src : ℕ) → memcpy m dst src 1 ≡ store m dst (m src)
unfolding memcpy copy_up
memcpy-one m dst src = ap₂ (λ d s. store m d (m s)) (omega arith) (omega arith)

-- `fgetc` in a regular file of the tar file system, before its end: it returns the next byte, moves on by
-- one, and changes the memory at its variable alone.
pub fgetc-more :
    (data' : TarRegData) (out : ℕ) (stream : FileHandle) (m : Memory)
    → data'.size < 2 ^ 32
    → stream.pos < data'.size
    → fgetc (node_rdwr v_reg data') out stream m ≡ (
      pos (m (data'.content + stream.pos)),
      record stream { pos = stream.pos + 1 },
      store m out (m (data'.content + stream.pos)),
    )
unfolding got
fgetc-more data' out stream m small inside =
    let moved : (stream.pos + 1) % 2 ^ 32 ≡ stream.pos + 1 = omega arith in
    let c = m (data'.content + stream.pos) in
    let here : store m out c out ≡ c = ground arith in
    fgetc-got data' out 1 stream m (ground arith)
    ∙ ap (λ m'. (pos (m' out), record stream { pos = (stream.pos + 1) % 2 ^ 32 }, m'))
        (memcpy-one m out (data'.content + stream.pos))
    ∙ ap₂ (λ d q. (pos d, record stream { pos = q }, store m out c)) here moved

-- `fgetc` at the end of a regular file returns EOF and sets the mark of the end.
pub fgetc-end :
    (data' : TarRegData) (out : ℕ) (stream : FileHandle) (m : Memory)
    → data'.size < 2 ^ 32
    → stream.pos ≡ data'.size
    → fgetc (node_rdwr v_reg data') out stream m ≡ (eof, record stream { eof = 1 }, m)
unfolding got memcpy copy_up
fgetc-end data' out stream m small at =
    let moved : (stream.pos + 0) % 2 ^ 32 ≡ stream.pos = omega arith in
    fgetc-got data' out 0 stream m (ground arith)
    ∙ ap (λ q. (eof, record stream { pos = q; eof = 1 }, m)) moved
