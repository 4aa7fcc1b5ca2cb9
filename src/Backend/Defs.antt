-- ===== src/Backend/Defs.antt =====
-- The class template `L4fs_file_base` of dom0/libfs/lib/libc_backend/l4fs.cc, and the class `Svr`.
use l4re_tmp_fs.Base.{
  ℕ, ◌+◌, ◌-◌, ◌≡◌, List, [], ◌%◌, ℤ, negsuc, neg, is_neg, is_zero, ltb, if◌then◌else◌, length,
  take, put_at, terminated,
}
use l4re_tmp_fs.Libfs.Platform.{L4, Stat64}
use l4re_tmp_fs.Libfs.Protocol.{max_path_size}
use l4re_tmp_fs.Libfs.Svr.{Method}
use l4re_tmp_fs.Libfs.Dispatch.{to_int}
use l4re_tmp_fs.Libfs.Client
use l4re_tmp_fs.Libfs.Client.{Channel}

-- What a mounted file system shares with its server: `svr()` for the calls and `rw_buffer()` for the
-- data. `write` is a `memcpy` to the start of the buffer.
pub record Remote (C : Type 0) : Type 0 where
  pub call : Channel C
  pub rw_buffer : C → List ℕ
  pub write : List ℕ → C → C
  pub rw_buffer-write : (bs : List ℕ) (c : C) → rw_buffer (write bs c) ≡ put_at 0 bs (rw_buffer c)

-- `Svr`: the object that the files of a mounted file system share, as far as it counts them. The
-- counter is an `unsigned long` of `w` values.
pub record Counted : Type 0 where
  pub ref : ℕ

unfoldable pub add_ref : ℕ → Method Counted (Unit {0})
add_ref w s = (tt, record { ref = (s.ref + 1) % w })

unfoldable pub remove_ref : ℕ → Method Counted ℕ
remove_ref w s = (s.ref, record { ref = (s.ref + (w - 1)) % w })

module _ {C : Type 0} (l4 : L4) (remote : Remote C) where
  -- size_t dst_size = strlen(dst_path) + 1; if (dst_size > Max_path_size) ... memcpy(...);
  abbrev pub with_target : List ℕ → Method C ℤ → Method C ℤ
  with_target path k c =
      if ltb (max_path_size l4) (length path + 1)
      then (neg l4.enametoolong, c)
      else k (remote.write (terminated path) c)

  unfoldable pub link : List ℕ → List ℕ → Method C ℤ
  link src_path dst_path = with_target dst_path (Client.link l4 remote.call src_path)

  unfoldable pub symlink : List ℕ → List ℕ → Method C ℤ
  symlink src_path dst_path = with_target dst_path (Client.symlink l4 remote.call src_path)

  -- The result, and what is copied to the caller's buffer.
  unfoldable pub readlink : ℤ → ℕ → Method C (ℤ × List ℕ)
  readlink fh client_size c =
      let ((res, size), c') = Client.readlink l4 remote.call fh client_size c in
      if is_neg res
      then ((res, []), c')
      else ((to_int l4.word_mod size, take client_size (remote.rw_buffer c')), c')

  unfoldable pub fstat64 : ℤ → Method C (ℤ × Stat64)
  fstat64 fh = Client.fstat64 l4 remote.call fh

  unfoldable pub size : ℤ → Method C ℤ
  unfolding fstat64
  size fh c = let ((err, st), c') = fstat64 fh c in (if is_zero err then st.st_size else err, c')

  -- The result, the new `_fh`, and the world.
  unfoldable pub close : ℤ → Method C (ℤ × ℤ)
  close fh c =
      if is_neg fh
      then ((neg l4.ebadf, negsuc 0), c)
      else let (err, c') = Client.close l4 remote.call fh c in ((err, negsuc 0), c')

  unfoldable pub fsync : ℤ → Method C ℤ
  fsync fh = Client.fsync l4 remote.call fh

  unfoldable pub fdatasync : ℤ → Method C ℤ
  unfolding fsync
  fdatasync fh = fsync fh
