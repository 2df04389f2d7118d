-- ===== src/Kernel/Vfs/Initial.antt =====
-- kernel/src/all/kernel/vfs.c: the first file system of the kernel.
use n00b_os.Prelude.{ℕ, Option, none, some, ◌&&◌, if◌then◌else◌, is_zero}
use n00b_os.Libk.Allocator.{Allocator}
use n00b_os.Kernel.Tarfs.Mount.{Places, Mounts, vfs_tarfs_init, fs_mount, fs_root}

-- `vfs_info->root` and `vfs_info->cwd` of the process, with what mounting leaves. `fs_ops` is the address
-- of the operations of the tar file system; `none` is a panic.
pub vfs_create_initial_fs :
    (A : Allocator) → ℕ → Places → ℕ → Mounts A → ℕ → Option (ℕ × ℕ × Mounts A)
vfs_create_initial_fs A fuel at fs_ops mounts initrd =
    let (initrdfs, heap) = A.malloc 12 mounts.fs.heap in
    let (ignored, vfs) = vfs_tarfs_init fs_ops initrdfs mounts.vfs in
    elim (fs_mount A fuel at (record mounts { fs = record mounts.fs { heap = heap }; vfs = vfs })
      initrd) [
        | none ↦ none
        | some (error, mounts') ↦
            let (no_root, root) = fs_root A mounts' in
            let (no_cwd, cwd) = fs_root A mounts' in
            if is_zero error
            then if is_zero no_root && is_zero no_cwd then some (root, cwd, mounts') else none
            else none
      ]
