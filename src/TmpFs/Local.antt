-- ===== src/TmpFs/Local.antt =====
-- What the methods of dom0/fs_srv/server/src/main.cc do to the files: the C library's call on the
-- path under "/tmp/".
use l4re_tmp_fs.Base.{ℕ, ◌+◌, ◌≤◌, ◌≡◌, refl, List, ◌++◌, length, put_at, terminated, IsString, ℤ}
use l4re_tmp_fs.Libfs.Platform.{L4}
use l4re_tmp_fs.TmpFs
use l4re_tmp_fs.TmpFs.{Libc, Server, tmp_dir, path_len, get_actual_path, target}
use l4re_tmp_fs.TmpFs.Paths.{IsReady, get_actual_path_lem, get_actual_path-IsReady, target_lem}

-- The method returns what the call returns, leaves the files that it leaves, and the path buffer
-- ready for the next call.
abbrev pub Local : {A F : Type 0} → A × Server F → A × F → Type 0
Local r t = (r.0 ≡ t.0) × (r.1.files ≡ t.1) × IsReady r.1

module _ {F : Type 0} (l4 : L4) (libc : Libc F) (name : List ℕ) (s : Server F) (h : IsString name)
    (fits : length name + 6 ≤ path_len) (v : IsReady s) where
  once : IsReady (get_actual_path l4 libc name s).1
  once = get_actual_path-IsReady l4 libc name s fits v

  twice : IsReady (get_actual_path l4 libc name (get_actual_path l4 libc name s).1).1
  twice = get_actual_path-IsReady l4 libc name _ fits once

  path_once : (get_actual_path l4 libc name s).0 ≡ tmp_dir ++ name
  path_once = get_actual_path_lem l4 libc name s h v

  path_twice : (get_actual_path l4 libc name (get_actual_path l4 libc name s).1).0 ≡ tmp_dir ++ name
  path_twice = get_actual_path_lem l4 libc name _ h once

  IsReady-with : (f : F) (t : Server F) → IsReady t → IsReady (record t { files = f })
  IsReady-with f t w = record { sized = w.sized; prefix = w.prefix }

  pub mkdir-Local :
      (mode : ℕ)
      → Local (TmpFs.mkdir l4 libc name mode s) (libc.mkdir (tmp_dir ++ name) mode s.files)
  unfolding TmpFs.mkdir
  mkdir-Local mode = rw path_once (refl, refl, IsReady-with _ _ once)

  pub unlink-Local : Local (TmpFs.unlink l4 libc name s) (libc.unlink (tmp_dir ++ name) s.files)
  unfolding TmpFs.unlink
  unlink-Local = rw path_once (refl, refl, IsReady-with _ _ once)

  pub rmdir-Local : Local (TmpFs.rmdir l4 libc name s) (libc.rmdir (tmp_dir ++ name) s.files)
  unfolding TmpFs.rmdir
  rmdir-Local = rw path_once (refl, refl, IsReady-with _ _ once)

  pub open_file-Local :
      (flags : ℤ) (mode : ℕ)
      → let t = libc.open_file (tmp_dir ++ name) flags mode s.files in
        Local (TmpFs.open_file l4 libc name flags mode s) ((t.0, mode), t.1)
  unfolding TmpFs.open_file
  open_file-Local flags mode = rw path_twice (refl, refl, IsReady-with _ _ twice)

  pub rename-Local :
      (to rest : List ℕ)
      → IsString to
      → s.rw_buf ≡ put_at 0 (terminated to) rest
      → Local (TmpFs.rename l4 libc name s) (libc.rename (tmp_dir ++ name) (tmp_dir ++ to) s.files)
  unfolding TmpFs.rename
  rename-Local to rest h' e =
      rw (path_twice, e, target_lem l4 libc to rest h')
        (refl, refl, record { sized = twice.sized; prefix = twice.prefix })
