-- ===== src/Kernel/Tarfs.antt =====
-- kernel/src/all/kernel/vfs/tarfs.c: a file system read from a tar archive in memory. Numbers of type
-- `int` and pointers are their 32 bits.
pub mod Octal
pub mod Read
pub mod Nodes
pub mod Mount
pub mod Directory
pub mod Lookup
pub mod Names
pub mod CopyName
pub mod Parent
mod Tests
use n00b_os.Prelude.{
  ℕ, zero, suc, ◌+◌, ◌-◌, ◌*◌, ◌/◌, ◌%◌, ◌^◌, Bool, true, false, not, ◌&&◌, Option, none, some,
  List, [], ◌∷◌, ltb, ◌==◌, if◌then◌else◌, ℤ, pos, minus_one,
}
use n00b_os.Libk.Memory.{Memory}
use n00b_os.Libk.Mem.{memcpy}
use n00b_os.Libk.Strings.{strcmp}
use n00b_os.Kernel.Vfs.{Uio, UioRw, uio_read, uio_write}
use mathlib.Core.Option

-- where the fields of `struct tar_header` begin
pub record TarHeader : Type 0 where
  pub filename : ℕ
  pub size : ℕ
  pub type : ℕ
  pub ustar : ℕ
  pub ustarversion : ℕ

abbrev pub tar_header : ℕ → TarHeader
tar_header header = record {
  filename = header;
  size = header + 124;
  type = header + 156;
  ustar = header + 257;
  ustarversion = header + 263;
}

pub is_empty_header : Memory → ℕ → Bool
is_empty_header m header = m (tar_header header).filename == 0

-- `ustar` is the address of the literal "ustar".
pub is_valid_header : ℕ → Memory → ℕ → ℕ → Option Bool
is_valid_header fuel m ustar header =
    let version = (tar_header header).ustarversion in
    Option.map
      (λ n. elim n [
        | ℤ.pos k ↦ (k == 0) && (m version == 48) && (m (version + 1) == 48)
        | ℤ.negsuc k ↦ false
      ])
      (strcmp fuel m (tar_header header).ustar ustar)

-- a `char`, which is signed, as an `int`
abbrev int_of_char : ℕ → ℕ
int_of_char c = if ltb c 128 then c else c + 2 ^ 32 - 2 ^ 8

pub read_octal_from : ℕ → Memory → ℕ → ℕ → ℕ → Option ℕ
read_octal_from zero m field i res = none
read_octal_from (suc fuel) m field i res =
    let rest =
      read_octal_from fuel m field (i + 1)
        ((res * 8 + int_of_char (m (field + i)) + 2 ^ 32 - 48) % 2 ^ 32) in
    if m (field + i) == 0 then some res else rest

pub read_octal : ℕ → Memory → ℕ → Option ℕ
unfolding read_octal_from
read_octal fuel m field = read_octal_from fuel m field 0 0

-- `((size / 512) + 1) * 512`: division of an `int` rounds towards 0.
abbrev whole_blocks : ℕ → ℕ
whole_blocks size =
    if ltb size (2 ^ 31) then (size / 512 + 1) * 512 else (2 ^ 32 - (2 ^ 32 - size) / 512 + 1) * 512

pub next_header : ℕ → Memory → ℕ → Option ℕ
unfolding read_octal
next_header fuel m header =
    Option.map
      (λ size.
        let next = header + whole_blocks size in
        (if size % 512 == 0 then next else next + 512) % 2 ^ 32)
      (read_octal fuel m (tar_header header).size)

-- `enum vtype`
pub data VType : Type 0 where
  v_reg : VType
  v_dir : VType

-- `struct tar_dir_entry`: the address of the name, and the node
pub record TarDirEntry : Type 0 where
  pub name : ℕ
  pub vnode : ℕ

-- `struct tar_reg_data`
pub record TarRegData : Type 0 where
  pub size : ℕ
  pub content : ℕ

-- the loop of `node_lookup` over the entries in the order of the list
find_entry : ℕ → Memory → ℕ → List TarDirEntry → Option (Option ℕ)
find_entry fuel m nm [] = some none
find_entry fuel m nm (e ∷ entries) =
    let rest = find_entry fuel m nm entries in
    elim (strcmp fuel m nm e.name) [
      | none ↦ none
      | some n ↦ elim n [
        | ℤ.pos k ↦ if k == 0 then some (some e.vnode) else rest
        | ℤ.negsuc k ↦ rest
      ]
    ]

-- The error and the node that is found, `vpp` where it is not.
pub node_lookup : ℕ → Memory → VType → List TarDirEntry → ℕ → ℕ → Option (ℤ × ℕ)
unfolding find_entry
node_lookup fuel m v_reg entries nm vpp = some (minus_one, vpp)
node_lookup fuel m v_dir entries nm vpp =
    Option.map (λ found. elim found [ some vnode ↦ (pos 0, vnode) | none ↦ (minus_one, vpp) ])
      (find_entry fuel m nm entries)

-- the rest of the file from an offset on, in `unsigned int`
abbrev pub remaining : TarRegData → ℕ → ℕ
remaining data' offset = (data'.size + 2 ^ 32 - offset) % 2 ^ 32

unfoldable pub node_rdwr : VType → TarRegData → Uio → UioRw → Memory → ℤ × Uio × Memory
node_rdwr v_dir data' uio rw m = (minus_one, uio, m)
node_rdwr v_reg data' uio uio_write m = (minus_one, uio, m)
node_rdwr v_reg data' uio uio_read m =
    let length =
      if ltb (remaining data' uio.offset) uio.length
      then remaining data' uio.offset
      else uio.length in
    (pos 0, record uio { length = length }, memcpy m uio.buffer (data'.content + uio.offset) length)
