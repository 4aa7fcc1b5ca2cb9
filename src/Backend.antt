-- ===== src/Backend.antt =====
-- dom0/libfs/lib/libc_backend/l4fs.cc: files and directories of the C library that live on a
-- file system server.
pub mod Defs
pub mod Dir
pub mod File
pub mod Mount
pub mod Overrun
pub mod Seek
