-- ===== src/Daemon/Urb.antt =====
-- The URB mode of crates/usbipd/src/daemon.rs: what the loop reads, what a transfer is answered with,
-- and the tasks, the in-flight table and the permits that the loop and the tasks share.
pub mod Requests
pub mod Framing
pub mod Reading
pub mod Reply
pub mod Blocking
pub mod Client
pub mod Stream
pub mod Writer
pub mod Tasks
pub mod Steps
pub mod Invariant
pub mod Answers
pub mod Races
pub mod Drain
