-- ===== src/Libfs.antt =====
-- The file system service: dom0/libfs.
pub mod Platform
pub mod Protocol
pub mod Svr
pub mod Dispatch
pub mod Client
pub mod Connection
pub mod Relayed
