-- ===== src/Backend/File.antt =====
-- The class `L4fs_file` of dom0/libfs/lib/libc_backend/l4fs.cc.
use l4re_tmp_fs.Base.{
  ℕ, ◌+◌, ◌%◌, signed, ◌&&◌, not, List, [], ◌∷◌, Option, none, some, ℤ, pos, is_neg, is_zero, ◌+ℤ◌,
  ◌==◌, if◌then◌else◌, length, take,
}
use l4re_tmp_fs.Libfs.Platform.{L4}
use l4re_tmp_fs.Libfs.Svr.{Method}
use l4re_tmp_fs.Libfs.Client
use l4re_tmp_fs.Backend.Defs.{Remote}

module _ {C : Type 0} (l4 : L4) (remote : Remote C) where
  -- `ds` is the slot that `chkcap(cap_alloc.alloc())` gave; an invalid capability is `none`.
  unfoldable pub data_space : ℤ → ℕ → Method C (Option ℕ)
  data_space fh ds c =
      let (err, c') = Client.dataspace l4 remote.call fh ds c in
      (if is_zero err then some ds else none, c')

  -- `read_bytes` and `written_bytes` are an ssize_t, kept as the word that it is stored in. The loop over the
  -- buffers' lengths: the result, and what has been copied to each buffer.
  unfoldable pub preadv_from : ℤ → List ℕ → ℤ → ℕ → Method C (ℤ × List (List ℕ))
  preadv_from fh [] p read_bytes c = ((signed l4.word_mod read_bytes, []), c)
  preadv_from fh (iov_len ∷ iov) p read_bytes c =
      let ((err, len), c') = Client.pread l4 remote.call fh iov_len p c in
      let bytes : List ℕ =
        if is_zero err && not (len == 0) then take len (remote.rw_buffer c') else [] in
      let rest = preadv_from fh iov (p +ℤ pos len) ((read_bytes + len) % l4.word_mod) c' in
      if is_neg err then ((err, []), c') else ((rest.0.0, bytes ∷ rest.0.1), rest.1)

  unfoldable pub preadv : ℤ → List ℕ → ℤ → Method C (ℤ × List (List ℕ))
  unfolding preadv_from
  preadv fh iov p = preadv_from fh iov p 0

  unfoldable pub pwritev_from : ℤ → List (List ℕ) → ℤ → ℕ → Method C ℤ
  pwritev_from fh [] p written_bytes c = (signed l4.word_mod written_bytes, c)
  pwritev_from fh (buf ∷ iov) p written_bytes c =
      let ((err, len), c') = Client.pwrite l4 remote.call fh (length buf) p (remote.write buf c) in
      let written = (written_bytes + len) % l4.word_mod in
      let rest = pwritev_from fh iov (p +ℤ pos len) written c' in
      if is_neg err
      then (err, c')
      else if len == length buf
      then rest
      else (signed l4.word_mod written, c')

  unfoldable pub pwritev : ℤ → List (List ℕ) → ℤ → Method C ℤ
  unfolding pwritev_from
  pwritev fh iov p = pwritev_from fh iov p 0

  unfoldable pub ftruncate64 : ℤ → ℤ → Method C ℤ
  ftruncate64 fh offset = Client.ftruncate64 l4 remote.call fh offset
