-- ===== src/Service.antt =====
-- The parts put together: the C library's backend of dom0/libfs/lib/libc_backend/l4fs.cc, the client
-- of dom0/libfs/lib/src/l4fs.cc, the dispatcher of dom0/libfs/lib/server/svr.cc and the server of
-- dom0/fs_srv/server/src/main.cc, with one buffer that both sides have attached.
pub mod Names
pub mod Reading
pub mod Writing
pub mod Contents
use l4re_tmp_fs.Base.{ℕ, ◌≡◌, refl, List, put_at}
use l4re_tmp_fs.Libfs.Platform.{L4}
use l4re_tmp_fs.Libfs.Connection.{Side, connect}
use l4re_tmp_fs.TmpFs.{Libc, Server, server}
use l4re_tmp_fs.Backend.Defs.{Remote}

abbrev write_buffer : {F : Type 0} → List ℕ → Side (Server F) → Side (Server F)
write_buffer bs c = record c { server = record (c.server) { rw_buf = put_at 0 bs c.server.rw_buf } }

abbrev pub tmp_remote : {F : Type 0} → L4 → Libc F → Remote (Side (Server F))
tmp_remote l4 libc = record {
  call = connect l4 (server l4 libc);
  rw_buffer = λ c. c.server.rw_buf;
  write = write_buffer;
  rw_buffer-write = λ bs c. refl;
}
