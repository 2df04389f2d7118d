-- ===== src/Kernel/Tarfs/Read.antt =====
-- Reading a file through its handle.
use n00b_os.Prelude.{
  ℕ, ◌+◌, ◌-◌, ◌%◌, ◌^◌, ◌<◌, ◌≤◌, ◌≡◌, refl, arith, ltb, if◌then◌else◌, pos, subst,
}
use n00b_os.Libk.Memory.{Memory, Apart, bytes}
use n00b_os.Libk.Mem.{memcpy}
use n00b_os.Libk.Mem.Laws.{memcpy-copies}
use n00b_os.Kernel.Vfs.{FileHandle, uio_read, vn_rdwr}
use n00b_os.Kernel.Tarfs.{TarRegData, v_reg, node_rdwr}

-- how many bytes a read gets
abbrev pub available : TarRegData → ℕ → ℕ → ℕ
available data' offset length =
    if ltb (data'.size - offset) length then data'.size - offset else length

-- A read through a handle that stands in a file gets the bytes from there on, as many as were asked
-- for or as are left, and the handle then stands behind them, in the file, if the buffer lies apart
-- from the content.
pub vn_rdwr-node_rdwr :
    (data' : TarRegData) (handlep : FileHandle) (buffer length : ℕ) (m : Memory)
    → data'.size < 2 ^ 32
    → handlep.pos ≤ data'.size
    → Apart buffer
        (available data' handlep.pos length)
        (data'.content + handlep.pos)
        (available data' handlep.pos length)
    → let n = available data' handlep.pos length in
      let (error, got, handlep', m') =
        vn_rdwr (node_rdwr v_reg data') handlep uio_read buffer length m in
      (error ≡ pos 0)
      × (got ≡ n)
      × (bytes m' buffer n ≡ bytes m (data'.content + handlep.pos) n)
      × (handlep'.pos ≡ handlep.pos + n)
      × (handlep'.pos ≤ data'.size)
unfolding vn_rdwr node_rdwr
vn_rdwr-node_rdwr data' handlep buffer length m small inside apart =
    let n = available data' handlep.pos length in
    let left : data'.size - handlep.pos ≡ (data'.size + 2 ^ 32 - handlep.pos) % 2 ^ 32 =
      omega arith in
    (
      refl,
      ground (arith, left),
      subst
          (λ k.
            bytes
              (memcpy m buffer (data'.content + handlep.pos) (if ltb k length then k else length))
              buffer n
            ≡ bytes m (data'.content + handlep.pos) n)
          left (memcpy-copies m buffer (data'.content + handlep.pos) n apart),
      ground (arith, left),
      ground (arith, left),
    )
