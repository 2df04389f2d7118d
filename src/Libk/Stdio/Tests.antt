-- ===== src/Libk/Stdio/Tests.antt =====
-- A file with "hi" at 1000.
use n00b_os.Prelude.{◌≡◌, refl, arith, ◌==◌, if◌then◌else◌, pos}
use n00b_os.Libk.Memory.{Memory, store}
use n00b_os.Libk.Stdio.{fgetc, eof}
use n00b_os.Libk.Stdio.Stream.{fgetc-more, fgetc-end}
use n00b_os.Kernel.Vfs.{FileHandle}
use n00b_os.Kernel.Tarfs.{TarRegData, v_reg, node_rdwr}

abbrev memory : Memory
memory a = if a == 1000 then 104 else if a == 1001 then 105 else 0

abbrev file : TarRegData
file = record { size = 2; content = 1000 }

abbrev stream : FileHandle
stream = record { node = 1; pos = 1; flags = 0; error = 0; eof = 0 }

second :
    fgetc (node_rdwr v_reg file) 50 stream memory
    ≡ (pos 105, record stream { pos = 2 }, store memory 50 105)
second = fgetc-more file 50 stream memory (omega arith) (omega arith)

third :
    fgetc (node_rdwr v_reg file) 50 (record stream { pos = 2 }) memory
    ≡ (eof, record stream { pos = 2; eof = 1 }, memory)
third = fgetc-end file 50 (record stream { pos = 2 }) memory (omega arith) refl
