-- ===== src/Libfs/Client.antt =====
-- dom0/libfs/lib/src/l4fs.cc: the calls of the service, as its clients make them.
use l4re_tmp_fs.Base.{
  ℕ, ◌+◌, List, [], ◌∷◌, ℤ, neg, is_zero, ltb, if◌then◌else◌, length, terminated,
}
use l4re_tmp_fs.Libfs.Platform.{
  L4, Stat64, opcode, int, mode, size, off64, chars, small_buf, Message,
}
use l4re_tmp_fs.Libfs.Protocol
use l4re_tmp_fs.Libfs.Protocol.{value, max_path_size, max_rw_buffer_size}
use l4re_tmp_fs.Libfs.Svr.{Method}

-- `l4_error(ios.call(cap()))`: the request goes to the server, and its error code and the stream
-- that it answers come back. `C` is all that a call may change.
abbrev pub Channel : Type 0 → Type 0
Channel C = Message → Method C (ℤ × Message)

module _ {C : Type 0} (l4 : L4) (call : Channel C) where
  -- A request whose answer is the error code alone.
  abbrev plain : Message → Method C ℤ
  plain m c = (((call m c).0).0, (call m c).1)

  -- if (strlen(name) + 1 > Max_path_size) return -L4_ENAMETOOLONG;
  abbrev with_path : List ℕ → Method C ℤ → Method C ℤ
  with_path name k c =
      if ltb (max_path_size l4) (length name + 1) then (neg l4.enametoolong, c) else k c

  -- if (size > Max_rw_buffer_size) return -L4_ENOMEM; ... ios >> size;
  abbrev transfer : Protocol.Opcode → ℤ → ℕ → ℤ → Method C (ℤ × ℕ)
  transfer op fh n offset c =
      if ltb max_rw_buffer_size n
      then ((neg l4.enomem, n), c)
      else let ((ret, reply), c') =
          call (opcode (value op) ∷ int fh ∷ size n ∷ off64 offset ∷ []) c in
        ((ret, (l4.get_size reply).0), c')

  unfoldable pub init : ℕ → Method C ℤ
  init rw_buf_ds = plain (opcode (value Protocol.init) ∷ small_buf rw_buf_ds ∷ [])

  unfoldable pub open_file : List ℕ → ℤ → ℕ → Method C (ℤ × ℕ)
  open_file name flags m c =
      if ltb (max_path_size l4) (length name + 1)
      then ((neg l4.enametoolong, m), c)
      else let request =
          opcode (value Protocol.open_file) ∷ int flags ∷ mode m ∷ chars (terminated name) ∷ [] in
        let ((ret, reply), c') = call request c in
        let (fh, reply') = l4.get_int reply in
        if is_zero ret then ((fh, (l4.get_mode reply').0), c') else ((ret, m), c')

  unfoldable pub mkdir : List ℕ → ℕ → Method C ℤ
  mkdir name m =
      with_path name (plain (opcode (value Protocol.mkdir) ∷ mode m ∷ chars (terminated name) ∷ []))

  unfoldable pub rmdir : List ℕ → Method C ℤ
  rmdir name = with_path name (plain (opcode (value Protocol.rmdir) ∷ chars (terminated name) ∷ []))

  unfoldable pub rename : List ℕ → Method C ℤ
  rename from =
      with_path from (plain (opcode (value Protocol.rename) ∷ chars (terminated from) ∷ []))

  unfoldable pub unlink : List ℕ → Method C ℤ
  unlink name =
      with_path name (plain (opcode (value Protocol.unlink) ∷ chars (terminated name) ∷ []))

  unfoldable pub umount : Method C ℤ
  umount = plain (opcode (value Protocol.umount) ∷ [])

  unfoldable pub sync : Method C ℤ
  sync = plain (opcode (value Protocol.sync) ∷ [])

  unfoldable pub pread : ℤ → ℕ → ℤ → Method C (ℤ × ℕ)
  pread = transfer Protocol.pread

  unfoldable pub pwrite : ℤ → ℕ → ℤ → Method C (ℤ × ℕ)
  pwrite = transfer Protocol.pwrite

  unfoldable pub pgetdents : ℤ → ℕ → ℤ → Method C (ℤ × ℕ)
  pgetdents = transfer Protocol.pgetdents

  unfoldable pub close : ℤ → Method C ℤ
  close fh = plain (opcode (value Protocol.close) ∷ int fh ∷ [])

  unfoldable pub link : List ℕ → Method C ℤ
  link from = with_path from (plain (opcode (value Protocol.link) ∷ chars (terminated from) ∷ []))

  unfoldable pub readlink : ℤ → ℕ → Method C (ℤ × ℕ)
  readlink fh bufsize c =
      let ((ret, reply), c') =
        call (opcode (value Protocol.readlink) ∷ int fh ∷ size bufsize ∷ []) c in
      ((ret, (l4.get_size reply).0), c')

  unfoldable pub symlink : List ℕ → Method C ℤ
  symlink from =
      with_path from (plain (opcode (value Protocol.symlink) ∷ chars (terminated from) ∷ []))

  unfoldable pub fstat64 : ℤ → Method C (ℤ × Stat64)
  fstat64 fh c =
      let ((ret, reply), c') = call (opcode (value Protocol.fstat64) ∷ int fh ∷ []) c in
      ((ret, (l4.get_stat reply).0), c')

  unfoldable pub fsync : ℤ → Method C ℤ
  fsync fh = plain (opcode (value Protocol.fsync) ∷ int fh ∷ [])

  unfoldable pub ftruncate64 : ℤ → ℤ → Method C ℤ
  ftruncate64 fh offset = plain (opcode (value Protocol.ftruncate64) ∷ int fh ∷ off64 offset ∷ [])

  unfoldable pub dataspace : ℤ → ℕ → Method C ℤ
  dataspace fh ds = plain (opcode (value Protocol.get_dataspace) ∷ int fh ∷ small_buf ds ∷ [])
