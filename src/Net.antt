-- ===== src/Net.antt =====
-- dom0/dom0-main: commands and files over TCP, between the dom0 instances of two machines.
pub mod Os
pub mod Socket
pub mod Remote
pub mod Server
pub mod Rom
pub mod Listen
pub mod Options
