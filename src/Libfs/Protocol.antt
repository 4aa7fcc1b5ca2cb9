-- ===== src/Libfs/Protocol.antt =====
-- dom0/libfs/include/l4fs-sys.h and the limits of dom0/libfs/include/l4fs.h
use l4re_tmp_fs.Base.{ℕ, zero, suc, ◌-◌, ◌*◌, ◌≡◌, refl, List, [], ◌∷◌, Option, none, some}
use l4re_tmp_fs.Libfs.Platform.{L4}

-- The values of the enum of l4fs-sys.h, in its order.
pub data Opcode : Type 0 where
  init open_file close pread pwrite pgetdents fstat64 ftruncate64 rename unlink rmdir mkdir fsync
        get_dataspace umount sync symlink link readlink :
      Opcode

unfoldable pub value : Opcode → ℕ
value init = 0
value open_file = 1
value close = 2
value pread = 3
value pwrite = 4
value pgetdents = 5
value fstat64 = 6
value ftruncate64 = 7
value rename = 8
value unlink = 9
value rmdir = 10
value mkdir = 11
value fsync = 12
value get_dataspace = 13
value umount = 14
value sync = 15
value symlink = 16
value link = 17
value readlink = 18

nth : ℕ → List Opcode → Option Opcode
nth n [] = none
nth zero (o ∷ os) = some o
nth (suc n) (o ∷ os) = nth n os

abbrev opcodes : List Opcode
opcodes =
    init ∷ open_file ∷ close ∷ pread ∷ pwrite ∷ pgetdents ∷ fstat64 ∷ ftruncate64 ∷ rename ∷ unlink
    ∷ rmdir ∷ mkdir ∷ fsync ∷ get_dataspace ∷ umount ∷ sync ∷ symlink ∷ link ∷ readlink ∷ []

-- The case label that a number on the wire selects; `none` is the `default` label.
unfoldable pub label : ℕ → Option Opcode
unfolding nth
label n = nth n opcodes

unfoldable pub max_path_size : L4 → ℕ
max_path_size l4 = (l4.utcb_generic_data_size - 5) * l4.sizeof_umword

abbrev pub max_rw_buffer_size : ℕ
max_rw_buffer_size = 1024 * 1024

pub label-value : (o : Opcode) → label (value o) ≡ some o
unfolding label value
label-value init = refl
label-value _ = refl
