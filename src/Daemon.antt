-- ===== src/Daemon.antt =====
-- crates/usbipd/src/daemon.rs: who may use which device, the handshake, the URB session, the listener.
pub mod Policy
pub mod Attach
pub mod Wire
pub mod Conn
pub mod Session
pub mod Urb
pub mod Listener
