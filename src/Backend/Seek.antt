-- ===== src/Backend/Seek.antt =====
-- The position of a directory, and the life of a handle, in dom0/libfs/lib/libc_backend/l4fs.cc.
use l4re_tmp_fs.Base.{
  ℕ, suc, ◌+◌, ◌≡◌, refl, ◌⊎◌, inl, inr, false, arith, ℤ, pos, negsuc, neg, is_neg, ◌+ℤ◌, ◌≤ℤ◌,
}
use l4re_tmp_fs.Libfs.Platform.{L4, Stat64}
use l4re_tmp_fs.Libfs.Client
use l4re_tmp_fs.Backend.Defs.{Remote, close, size}
use l4re_tmp_fs.Backend.Dir.{Dir, Whence, seek_set, seek_cur, seek_end, other, seek, lseek64}

-- Either the position is refused and the directory is as it was, or the new position is returned.
abbrev pub Sought : L4 → Dir → ℤ × Dir → Type 0
Sought l4 d r =
    ((r.0 ≡ neg l4.einval) × (r.1 ≡ d))
    ⊎ ((r.0 ≡ r.1.position) × (r.1.fh ≡ d.fh) × (pos 0 ≤ℤ r.1.position))

seek-Sought : (l4 : L4) (d : Dir) (r : ℤ) → Sought l4 d (seek l4 d r)
seek-Sought l4 d (pos n) = inr (refl, refl, omega arith)
seek-Sought l4 d (negsuc n) = inl (refl, refl)

cancel : (e k : ℕ) → negsuc e +ℤ pos (suc e + k) ≡ pos k
unfolding ◌+ℤ◌
cancel e k = ground arith

module _ {C : Type 0} (l4 : L4) (remote : Remote C) (d : Dir) (c : C) where
  -- `lseek64` either answers -EINVAL and leaves the directory as it is, or moves the position of the
  -- same directory to a place that is not negative, and returns it.
  pub lseek64_lem :
      (offset : ℤ) (whence : Whence) → Sought l4 d (lseek64 l4 remote d offset whence c).0
  unfolding lseek64
  lseek64_lem offset seek_set = seek-Sought l4 d offset
  lseek64_lem offset seek_cur = seek-Sought l4 d _
  lseek64_lem offset seek_end = seek-Sought l4 d _
  lseek64_lem offset other = inl (refl, refl)

  -- When `fstat64` fails, the error code serves as the size: seeking behind it succeeds.
  pub lseek64_error :
      (e k : ℕ) (st : Stat64) (c' : C)
      → Client.fstat64 l4 remote.call d.fh c ≡ ((negsuc e, st), c')
      → lseek64 l4 remote d (pos (suc e + k)) seek_end c
        ≡ ((pos k, record d { position = pos k }), c')
  unfolding lseek64 size
  lseek64_error e k st c' failed = rw (failed, cancel e k) refl

  -- A handle that is open is closed once: the first call is the server's, and its result comes back;
  -- a second call answers -EBADF and sends nothing.
  pub close-close :
      (fh : ℤ)
      → is_neg fh ≡ false
      → let r = close l4 remote fh c in
        ((r.0.0, r.1) ≡ Client.close l4 remote.call fh c)
        × (close l4 remote r.0.1 r.1 ≡ ((neg l4.ebadf, negsuc 0), r.1))
  unfolding close
  close-close fh is_open = rw is_open (refl, refl)
