-- ===== src/Libfs/Svr.antt =====
-- The server interface of dom0/libfs/include/svr.h, and the defaults at the end of
-- dom0/libfs/lib/server/svr.cc.
use l4re_tmp_fs.Base.{ℕ, List, Option, none, ℤ, neg}
use l4re_tmp_fs.Libfs.Platform.{L4, Stat64}

-- A method of an object with state `S`.
abbrev pub Method : Type 0 → Type 0 → Type 0
Method S A = S → A × S

-- The virtual functions of `L4fs_fs`, `L4fs_file` and `L4fs_ds`, which `L4fs_svr` inherits. An
-- argument `T *` or `T &` that a function writes is one more result; an invalid capability is
-- `none`.
pub record Svr (S : Type 0) : Type 0 where
  pub init : Method S (ℤ × Option ℕ)
  pub open_file : List ℕ → ℤ → ℕ → Method S (ℤ × ℕ)
  pub mkdir : List ℕ → ℕ → Method S ℤ
  pub rename : List ℕ → Method S ℤ
  pub link : List ℕ → Method S ℤ
  pub symlink : List ℕ → Method S ℤ
  pub unlink : List ℕ → Method S ℤ
  pub rmdir : List ℕ → Method S ℤ
  pub umount : Method S ℤ
  pub sync : Method S ℤ
  pub readlink : ℤ → ℕ → Method S ℤ
  pub pread : ℤ → ℕ → ℤ → Method S ℤ
  pub pwrite : ℤ → ℕ → ℤ → Method S ℤ
  pub pgetdents : ℤ → ℕ → ℤ → Method S ℤ
  pub close : ℤ → Method S ℤ
  pub fstat64 : ℤ → Method S (ℤ × Stat64)
  pub fsync : ℤ → Method S ℤ
  pub ftruncate64 : ℤ → ℤ → Method S ℤ
  pub dataspace : ℤ → Method S (ℤ × Option ℕ)

module _ {S : Type 0} (l4 : L4) (uninitialised : Stat64) where
  -- The base classes: every operation answers -L4_ENOSYS and does nothing. What `fstat64` leaves
  -- in the caller's structure is what was there.
  unfoldable pub unimplemented : Svr S
  unimplemented = record {
    init = λ s. ((neg l4.enosys, none), s);
    open_file = λ name flags mode s. ((neg l4.enosys, mode), s);
    mkdir = λ name mode s. (neg l4.enosys, s);
    rename = λ from s. (neg l4.enosys, s);
    link = λ from s. (neg l4.enosys, s);
    symlink = λ from s. (neg l4.enosys, s);
    unlink = λ name s. (neg l4.enosys, s);
    rmdir = λ name s. (neg l4.enosys, s);
    umount = λ s. (neg l4.enosys, s);
    sync = λ s. (neg l4.enosys, s);
    readlink = λ fh size s. (neg l4.enosys, s);
    pread = λ fh size offset s. (neg l4.enosys, s);
    pwrite = λ fh size offset s. (neg l4.enosys, s);
    pgetdents = λ fh size offset s. (neg l4.enosys, s);
    close = λ fh s. (neg l4.enosys, s);
    fstat64 = λ fh s. ((neg l4.enosys, uninitialised), s);
    fsync = λ fh s. (neg l4.enosys, s);
    ftruncate64 = λ fh offset s. (neg l4.enosys, s);
    dataspace = λ fh s. ((neg l4.enosys, none), s);
  }
