-- ===== src/TmpFs.antt =====
-- dom0/fs_srv/server/src/main.cc: the server that answers the calls of dom0/libfs from a tmpfs that
-- is mounted at /tmp.
pub mod Paths
pub mod Dataspace
pub mod Local
pub mod Start
pub mod Session
use l4re_tmp_fs.Base.{
  ℕ, zero, suc, ◌+◌, ◌%◌, ◌≤◌, ◌≡◌, ◌⊎◌, Bool, true, false, List, [], ◌∷◌, Option, none, some, ℤ,
  pos, negsuc, neg, to_word, ltb, if◌then◌else◌, length, put_at, c_string, terminated, take,
}
use l4re_tmp_fs.Libfs.Platform.{L4, Stat64}
use l4re_tmp_fs.Libfs.Protocol.{max_rw_buffer_size}
use l4re_tmp_fs.Libfs.Svr.{Method, Svr}
use l4re_tmp_fs.Libfs.Dispatch.{to_int}

abbrev pub path_len : ℕ
path_len = 255

-- "/tmp/"
abbrev pub tmp_dir : List ℕ
tmp_dir = b'/' ∷ b't' ∷ b'm' ∷ b'p' ∷ b'/' ∷ []

-- The C library's file system calls over a state `F`, and L4's allocators. A read returns the count
-- and the bytes that it stored; -1 comes with no byte.
pub record Libc (F : Type 0) : Type 0 where
  pub open_file : List ℕ → ℤ → ℕ → Method F ℤ
  pub mkdir : List ℕ → ℕ → Method F ℤ
  pub rename : List ℕ → List ℕ → Method F ℤ
  pub unlink : List ℕ → Method F ℤ
  pub rmdir : List ℕ → Method F ℤ
  pub close : ℤ → Method F ℤ
  pub pread64 : ℤ → ℕ → ℤ → Method F (ℤ × List ℕ)
  pub pwrite64 : ℤ → List ℕ → ℤ → Method F ℤ
  pub fstat64 : ℤ → Method F (ℤ × Stat64)
  pub malloc : ℕ → List ℕ
  pub alloc_cap : List (ℕ × List ℕ) → ℕ
  pub alloc_ds : ℕ → List ℕ
  pub length-malloc : (n : ℕ) → length (malloc n) ≡ n
  pub length-alloc_ds : (n : ℕ) → n ≤ length (alloc_ds n)
  pub pread64_count :
      (fh : ℤ) (n : ℕ) (offset : ℤ) (f : F)
      → let r = (pread64 fh n offset f).0 in
        ((r.0 ≡ pos (length r.1)) × (length r.1 ≤ n)) ⊎ ((r.0 ≡ negsuc 0) × (r.1 ≡ []))
  pub pwrite64_count :
      (fh : ℤ) (bs : List ℕ) (offset : ℤ) (f : F)
      → let r = (pwrite64 fh bs offset f).0 in
        ((k : ℕ) × (r ≡ pos k) × (k ≤ length bs)) ⊎ (r ≡ negsuc 0)

-- The object: the capability and the contents of the buffer that it shares with its clients, the
-- path buffer, and the dataspaces that it made for `dataspace`, each with its contents. `stuck` says
-- that a loop did not end in the rounds that it was given.
pub record Server (F : Type 0) : Type 0 where
  pub rw_buf_ds : ℕ
  pub rw_buf : List ℕ
  pub actual_path : List ℕ
  pub spaces : List (ℕ × List ℕ)
  pub stuck : Bool
  pub files : F

-- The values of an `int`.
abbrev pub int_mod : ℕ
int_mod = 4294967296

-- int size = buf.st_size; used as a `size_t`.
unfoldable pub to_size : L4 → ℤ → ℕ
to_size l4 st_size = to_word l4.word_mod (to_int int_mod (to_word int_mod st_size))

module _ {F : Type 0} (l4 : L4) (libc : Libc F) where
  -- Server(). The path buffer holds what the object's memory held.
  unfoldable pub new_server : List ℕ → F → Server F
  new_server memory f = record {
    rw_buf_ds = libc.alloc_cap [];
    rw_buf = libc.alloc_ds max_rw_buffer_size;
    actual_path = put_at 0 (terminated tmp_dir) memory;
    spaces = [];
    stuck = false;
    files = f;
  }

  -- strcpy(shortPath, src); return actualPath;
  unfoldable pub get_actual_path : List ℕ → Method (Server F) (List ℕ)
  get_actual_path src s =
      let buf = put_at (length tmp_dir) (terminated src) s.actual_path in
      (c_string buf, record s { actual_path = buf })

  abbrev on_files : {A : Type 0} → Method F A → Method (Server F) A
  on_files m s = ((m s.files).0, record s { files = (m s.files).1 })

  unfoldable pub init : Method (Server F) (ℤ × Option ℕ)
  init s = ((pos 0, some s.rw_buf_ds), s)

  -- The path is translated for the message on the console, and once more for the call.
  unfoldable pub open_file : List ℕ → ℤ → ℕ → Method (Server F) (ℤ × ℕ)
  unfolding get_actual_path
  open_file name flags mode s =
      let (_, s') = get_actual_path name s in
      let (path, s'') = get_actual_path name s' in
      let (fh, s''') = on_files (libc.open_file path flags mode) s'' in ((fh, mode), s''')

  unfoldable pub mkdir : List ℕ → ℕ → Method (Server F) ℤ
  unfolding get_actual_path
  mkdir name mode s = let (path, s') = get_actual_path name s in on_files (libc.mkdir path mode) s'

  unfoldable pub target : List ℕ → List ℕ
  target rw_buf = c_string (
      put_at (length tmp_dir) (terminated (c_string rw_buf))
        (put_at 0 (terminated tmp_dir) (libc.malloc path_len)))

  unfoldable pub rename : List ℕ → Method (Server F) ℤ
  unfolding get_actual_path target
  rename from s =
      let tmp = target s.rw_buf in
      let (_, s') = get_actual_path from s in
      let (path, s'') = get_actual_path from s' in on_files (libc.rename path tmp) s''

  unfoldable pub unlink : List ℕ → Method (Server F) ℤ
  unfolding get_actual_path
  unlink name s = let (path, s') = get_actual_path name s in on_files (libc.unlink path) s'

  unfoldable pub rmdir : List ℕ → Method (Server F) ℤ
  unfolding get_actual_path
  rmdir name s = let (path, s') = get_actual_path name s in on_files (libc.rmdir path) s'

  unfoldable pub pread : ℤ → ℕ → ℤ → Method (Server F) ℤ
  pread fh size offset s =
      let ((ret, bytes), f) = libc.pread64 fh size offset s.files in
      (ret, record s { rw_buf = put_at 0 bytes s.rw_buf; files = f })

  unfoldable pub pwrite : ℤ → ℕ → ℤ → Method (Server F) ℤ
  pwrite fh size offset s = on_files (libc.pwrite64 fh (take size s.rw_buf) offset) s

  -- while (read < size) read += ::pread64(fh, addr + read, size, read);
  copy_loop : ℕ → ℤ → ℕ → ℕ → List ℕ → F → Option (List ℕ × F)
  copy_loop zero fh size read memory f = none
  copy_loop (suc fuel) fh size read memory f =
      let ((ret, bytes), f') = libc.pread64 fh size (pos read) f in
      let rest =
        copy_loop fuel fh size ((read + to_word l4.word_mod ret) % l4.word_mod)
          (put_at read bytes memory) f' in
      if ltb read size then rest else some (memory, f)

  -- The loop is given as many rounds as the file has bytes, and one to see the end.
  unfoldable pub dataspace : ℤ → Method (Server F) (ℤ × Option ℕ)
  unfolding copy_loop to_size
  dataspace fh s =
      let ((_, st), f) = libc.fstat64 fh s.files in
      let size = to_size l4 st.st_size in
      let ds = libc.alloc_cap s.spaces in
      let fresh = libc.alloc_ds size in
      elim (copy_loop (suc size) fh size 0 fresh f) [
        | some (memory, f') ↦
            ((pos 0, some ds), record s { spaces = (ds, memory) ∷ s.spaces; files = f' })
        | none ↦ (
          (pos 0, some ds),
          record s { spaces = (ds, fresh) ∷ s.spaces; files = f; stuck = true },
        )
      ]

  unfoldable pub server : Svr (Server F)
  server = record {
    init = init;
    open_file = open_file;
    mkdir = mkdir;
    rename = rename;
    link = λ from s. (neg l4.enosys, s);
    symlink = λ from s. (neg l4.enosys, s);
    unlink = unlink;
    rmdir = rmdir;
    umount = λ s. (neg l4.enosys, s);
    sync = λ s. (pos 0, s);
    readlink = λ fh size s. (neg l4.enosys, s);
    pread = pread;
    pwrite = pwrite;
    pgetdents = λ fh size offset s. (neg l4.enosys, s);
    close = λ fh. on_files (libc.close fh);
    fstat64 = λ fh. on_files (libc.fstat64 fh);
    fsync = λ fh s. (neg l4.enosys, s);
    ftruncate64 = λ fh offset s. (neg l4.enosys, s);
    dataspace = dataspace;
  }
