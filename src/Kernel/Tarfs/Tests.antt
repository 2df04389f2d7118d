-- ===== src/Kernel/Tarfs/Tests.antt =====
-- The size "17" of a header at 0, and a file of 10 bytes at 1000.
use n00b_os.Prelude.{
  ◌+◌, ◌*◌, ◌/◌, ◌%◌, ◌^◌, ◌≤◌, ◌≡◌, refl, inl, some, [], ◌∷◌, arith, ◌==◌, if◌then◌else◌, pos,
}
use n00b_os.Libk.Memory.{Memory, bytes}
use n00b_os.Libk.Strings.Laws.{IsString}
use n00b_os.Kernel.Vfs.{FileHandle, uio_read, vn_rdwr}
use n00b_os.Kernel.Tarfs.{TarRegData, v_reg, node_rdwr, read_octal, next_header}
use n00b_os.Kernel.Tarfs.Octal.{octal_from, read_octal_lem, next_header_lem}
use n00b_os.Kernel.Tarfs.Read.{vn_rdwr-node_rdwr}

abbrev memory : Memory
memory a = if a == 124 then 49 else if a == 125 then 55 else 0

seventeen : IsString memory 124 (49 ∷ 55 ∷ [])
seventeen = (refl, omega arith, (refl, omega arith, refl))

read_octal_lem_example : read_octal 3 memory 124 ≡ some 15
read_octal_lem_example =
    read_octal_lem 3 memory 124 (49 ∷ 55 ∷ []) seventeen
      (omega arith, omega arith, (omega arith, omega arith, tt)) (omega arith)

next_header_lem_test :
    next_header 3 memory 0
    ≡ some ((0 + 512 + (octal_from 0 (49 ∷ 55 ∷ []) + 511) / 512 * 512) % 2 ^ 32)
next_header_lem_test =
    next_header_lem 3 memory 0 (49 ∷ 55 ∷ []) seventeen
      (omega arith, omega arith, (omega arith, omega arith, tt)) (omega arith) (omega arith)

abbrev file : TarRegData
file = record { size = 10; content = 1000 }

abbrev handle : FileHandle
handle = record { node = 1; pos = 7; flags = 0; error = 0; eof = 0 }

vn_rdwr-node_rdwr_example :
    let (error, got, handle', m') = vn_rdwr (node_rdwr v_reg file) handle uio_read 500 8 memory in
    (error ≡ pos 0)
    × (got ≡ 3)
    × (bytes m' 500 3 ≡ bytes memory 1007 3)
    × (handle'.pos ≡ 10)
    × (handle'.pos ≤ 10)
vn_rdwr-node_rdwr_example =
    vn_rdwr-node_rdwr file handle 500 8 memory (omega arith) (omega arith) (inl (omega arith))
