-- ===== src/Backend/Dir.antt =====
-- The class `L4fs_dir` of dom0/libfs/lib/libc_backend/l4fs.cc.
use l4re_tmp_fs.Base.{
  ℕ, Bool, ◌&&◌, List, [], ◌∷◌, Option, none, some, ℤ, pos, neg, is_neg, is_zero, ◌+ℤ◌, ltb, leb,
  if◌then◌else◌, take,
}
use l4re_tmp_fs.Libfs.Platform.{L4}
use l4re_tmp_fs.Libfs.Svr.{Method}
use l4re_tmp_fs.Libfs.Client
use l4re_tmp_fs.Backend.Defs
use l4re_tmp_fs.Backend.Defs.{Remote, with_target}

pub record Dir : Type 0 where
  pub fh : ℤ
  pub position : ℤ

-- The values of `whence` that `lseek64` tells apart.
pub data Whence : Type 0 where
  seek_set seek_cur seek_end other : Whence

pub data Entry : Type 0 where
  directory : Dir → Entry
  file : ℤ → Entry

-- fcntl.h and sys/stat.h: `flags | O_DIRECTORY` and `S_ISDIR`.
pub record Modes : Type 0 where
  pub or_directory : ℤ → ℤ
  pub s_isdir : ℕ → Bool

-- if (r < 0) return -EINVAL; _pos = r; return _pos;
abbrev pub seek : L4 → Dir → ℤ → ℤ × Dir
seek l4 d r = if is_neg r then (neg l4.einval, d) else (r, record d { position = r })

module _ {C : Type 0} (l4 : L4) (remote : Remote C) where
  unfoldable pub lseek64 : Dir → ℤ → Whence → Method C (ℤ × Dir)
  lseek64 d offset seek_set c = (seek l4 d offset, c)
  lseek64 d offset seek_cur c = (seek l4 d (d.position +ℤ offset), c)
  lseek64 d offset seek_end c =
      let (n, c') = Defs.size l4 remote d.fh c in (seek l4 d (n +ℤ offset), c')
  lseek64 d offset other c = ((neg l4.einval, d), c)

  -- The result, the bytes that are copied to the caller's buffer, and the object.
  unfoldable pub getdents : Dir → ℕ → Method C (ℤ × List ℕ × Dir)
  getdents d max_size c =
      let ((err, size), c') = Client.pgetdents l4 remote.call d.fh max_size d.position c in
      if is_zero err && (ltb 0 size && leb size max_size)
      then (
        (pos size, take size (remote.rw_buffer c'), record d { position = d.position +ℤ pos size }),
        c',
      )
      else ((err, [], d), c')

  -- `allocated` says whether `new` gave an object.
  unfoldable pub get_entry : Modes → Bool → List ℕ → ℤ → ℕ → Method C (ℤ × Option Entry)
  get_entry modes allocated name flags mode c =
      let flags' : ℤ = elim name [ [] ↦ modes.or_directory flags | _ ∷ _ ↦ flags ] in
      let ((fh, mode'), c') = Client.open_file l4 remote.call name flags' mode c in
      if is_neg fh
      then ((fh, none), c')
      else if allocated
      then (
        (
          pos 0,
          some (
              if modes.s_isdir mode'
              then directory (record { fh = fh; position = pos 0 })
              else file fh),
        ),
        c',
      )
      else ((neg l4.enomem, none), c')

  unfoldable pub mkdir : List ℕ → ℕ → Method C ℤ
  mkdir name mode = Client.mkdir l4 remote.call name mode

  unfoldable pub rmdir : List ℕ → Method C ℤ
  rmdir name = Client.rmdir l4 remote.call name

  unfoldable pub rename : List ℕ → List ℕ → Method C ℤ
  rename from to = with_target l4 remote to (Client.rename l4 remote.call from)

  unfoldable pub unlink : List ℕ → Method C ℤ
  unlink name = Client.unlink l4 remote.call name
