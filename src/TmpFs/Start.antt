-- ===== src/TmpFs/Start.antt =====
-- dom0/fs_srv/server/src/main.cc: `main`, which mounts the tmpfs and makes the server.
use l4re_tmp_fs.Base.{ℕ, Bool, List, [], ◌∷◌, drop, ℤ, is_zero, if◌then◌else◌}
use l4re_tmp_fs.Libfs.Platform.{L4}
use l4re_tmp_fs.Libfs.Svr.{Method}
use l4re_tmp_fs.TmpFs.{Libc, Server, new_server, tmp_dir}

-- `main` returns, or it is in the loop of the registry with its server.
pub data Outcome (F : Type 0) : Type 0 where
  returned : ℕ → F → Outcome F
  serving : Server F → Outcome F

-- The mount and the registration, which says whether the capability is valid; the server is registered with
-- the files as they are.
pub record Start (F : Type 0) : Type 0 where
  pub mount_tmpfs : List ℕ → List ℕ → Method F ℤ
  pub register_obj : Server F → Method F Bool

module _ {F : Type 0} (l4 : L4) (libc : Libc F) (start : Start F) where
  unfoldable pub register : Server F → Outcome F
  register svr =
      let (valid, f) = start.register_obj svr svr.files in
      if valid then serving (record svr { files = f }) else returned 0 f

  -- The memory of the object `svr` held `memory`.
  unfoldable pub main : (memory : List ℕ) → F → Outcome F
  main memory f =
      let (res, f') = start.mount_tmpfs (b'/' ∷ []) (drop 1 tmp_dir) f in
      if is_zero res then register (new_server l4 libc memory f') else returned 1 f'
