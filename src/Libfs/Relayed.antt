-- ===== src/Libfs/Relayed.antt =====
-- The calls of dom0/libfs/lib/src/l4fs.cc and the methods that dom0/libfs/lib/server/svr.cc calls for
-- them, side by side.
use l4re_tmp_fs.Base.{ℕ, ◌≤◌, ◌<◌, refl, List, length, ℤ, IsString}
use l4re_tmp_fs.Libfs.Platform.{L4}
use l4re_tmp_fs.Libfs.Protocol.{max_path_size, max_rw_buffer_size, label, value}
use l4re_tmp_fs.Libfs.Svr.{Svr}
use l4re_tmp_fs.Libfs.Dispatch.{dispatch, handle}
use l4re_tmp_fs.Libfs.Client
use l4re_tmp_fs.Libfs.Connection
use l4re_tmp_fs.Libfs.Connection.{Side, connect, Relays, IsInt, counted}

module _ {S : Type 0} (l4 : L4) (svr : Svr S) (c : Side S) where
  -- Every call on a path reaches its own method of the server with the same path, mode and flags, and
  -- its result comes back: given that the path is a string that fits in a request with its NUL, and
  -- that the flags are an `int`. What the server's name buffer held before does not matter.
  pub paths_relayed :
      (name : List ℕ) (flags : ℤ) (mode : ℕ)
      → IsString name
      → length name < max_path_size l4
      → IsInt l4.word_mod flags
      → let call = connect l4 svr in
        Relays (Client.open_file l4 call name flags mode c) (svr.open_file name flags mode c.server)
        × Relays (Client.mkdir l4 call name mode c) (svr.mkdir name mode c.server)
        × Relays (Client.rmdir l4 call name c) (svr.rmdir name c.server)
        × Relays (Client.rename l4 call name c) (svr.rename name c.server)
        × Relays (Client.unlink l4 call name c) (svr.unlink name c.server)
        × Relays (Client.link l4 call name c) (svr.link name c.server)
        × Relays (Client.symlink l4 call name c) (svr.symlink name c.server)
  paths_relayed name flags mode h fits int = (
    Connection.open_file_lem l4 svr c name h fits flags mode int,
    Connection.mkdir_lem l4 svr c name h fits mode,
    Connection.rmdir_lem l4 svr c name h fits,
    Connection.rename_lem l4 svr c name h fits,
    Connection.unlink_lem l4 svr c name h fits,
    Connection.link_lem l4 svr c name h fits,
    Connection.symlink_lem l4 svr c name h fits,
  )

  -- Every transfer that fits in the shared buffer reaches its own method of the server with the same
  -- handle, size and offset; a negative result comes back as the status, and any result as the count,
  -- as a machine word.
  pub transfers_relayed :
      (fh : ℤ) (n : ℕ) (offset : ℤ)
      → n ≤ max_rw_buffer_size
      → let call = connect l4 svr in
        Relays (Client.pread l4 call fh n offset c) (counted l4 (svr.pread fh n offset c.server))
        × Relays
            (Client.pwrite l4 call fh n offset c)
            (counted l4 (svr.pwrite fh n offset c.server))
        × Relays
            (Client.pgetdents l4 call fh n offset c)
            (counted l4 (svr.pgetdents fh n offset c.server))
        × Relays (Client.readlink l4 call fh n c) (counted l4 (svr.readlink fh n c.server))
  transfers_relayed fh n offset h = (
    Connection.pread_lem l4 svr c fh n offset h,
    Connection.pwrite_lem l4 svr c fh n offset h,
    Connection.pgetdents_lem l4 svr c fh n offset h,
    Connection.readlink_lem l4 svr c fh n,
  )

  umount_lem : Relays (Client.umount l4 (connect l4 svr) c) (svr.umount c.server)
  unfolding Client.umount connect dispatch handle label value
  umount_lem = simp (l4.opcode_lem) (refl, refl)

  sync_lem : Relays (Client.sync l4 (connect l4 svr) c) (svr.sync c.server)
  unfolding Client.sync connect dispatch handle label value
  sync_lem = simp (l4.opcode_lem) (refl, refl)

  -- Every call on a handle, and every call on the whole file system, reaches its own method of the
  -- server, and its result comes back.
  pub handles_relayed :
      (fh offset : ℤ)
      → let call = connect l4 svr in
        Relays (Client.close l4 call fh c) (svr.close fh c.server)
        × Relays (Client.fsync l4 call fh c) (svr.fsync fh c.server)
        × Relays (Client.fstat64 l4 call fh c) (svr.fstat64 fh c.server)
        × Relays (Client.ftruncate64 l4 call fh offset c) (svr.ftruncate64 fh offset c.server)
        × Relays (Client.umount l4 call c) (svr.umount c.server)
        × Relays (Client.sync l4 call c) (svr.sync c.server)
  handles_relayed fh offset = (
    Connection.close_lem l4 svr c fh,
    Connection.fsync_lem l4 svr c fh,
    Connection.fstat64_lem l4 svr c fh,
    Connection.ftruncate64_lem l4 svr c fh offset,
    umount_lem,
    sync_lem,
  )
