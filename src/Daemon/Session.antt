-- ===== src/Daemon/Session.antt =====
-- The sessions of crates/usbipd/src/daemon.rs: `handle_session`, `handle_devlist`, `handle_import`.
-- A handler goes on with a value, or stops with what the function returns; the client's connection and
-- the daemon's state come back in both cases.
pub mod Flow
pub mod Handlers
pub mod Devlist
pub mod Ending
pub mod Whole
pub mod Listed
pub mod Import
