-- ===== src/Tests.antt =====
-- The theorems at concrete inputs.
pub mod Samples
mod Proto
mod Host
pub mod Session
mod Listed
mod Urb
mod Stream
mod Writer
mod Keyboard
mod Cli
mod Events
pub mod Transfer
pub mod Capture
mod Listener
