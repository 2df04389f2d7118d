-- ===== src/Kernel/Start/Tests.antt =====
-- A banner of two characters at 1000, and one of 80.
use n00b_os.Prelude.{ℕ, ◌+◌, ◌<◌, ◌≡◌, refl, inl, inr, some, arith}
use n00b_os.Libk.Memory.{Memory}
use n00b_os.Kernel.Vfs.{FileHandle}
use n00b_os.Kernel.Tarfs.{TarRegData, v_reg, node_rdwr}
use n00b_os.Kernel.Start.{make_banner}
use n00b_os.Kernel.Start.Banner.{make_banner_lem}

abbrev memory : Memory
memory a = 42

abbrev long_file : TarRegData
long_file = record { size = 80; content = 1000 }

abbrev stream : FileHandle
stream = record { node = 1; pos = 0; flags = 0; error = 0; eof = 0 }

-- The zeros are written at 277 and 481, behind the arrays at 200 and 400.
make_banner_lem_example :
    (fp' : FileHandle) × (m' : Memory) × (make_banner 100
        (node_rdwr v_reg long_file)
        50
        stream
        memory
        200
        400
      ≡ some (77, fp', m'))
    × ((j : ℕ) → j < 77 → m' (200 + j) ≡ 42)
    × (m' 277 ≡ 0)
    × ((j : ℕ) → j < 81 → m' (400 + j) ≡ 42)
    × (m' 481 ≡ 0)
make_banner_lem_example =
    make_banner_lem 100 long_file 50 stream memory 200 400 (omega arith) refl refl (omega arith)
      (inl (omega arith)) (inl (omega arith)) (inl (omega arith)) (inr (omega arith))
