-- ===== src/Kernel.antt =====
-- dom0/dom0-l4re_kernel: the memory of the loader's kernel, and the start of a program.
pub mod Pages
pub mod Memory
pub mod Stack
pub mod Regions
pub mod Loader
pub mod Launch
pub mod Dispatch
pub mod Main
