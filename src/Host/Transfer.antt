-- ===== src/Host/Transfer.antt =====
-- The transfers of an opened device, of crates/host-mac/src/lib.rs. The calls of nusb are logged, and
-- what nusb answers a call is a function of the calls before it.
pub mod Calls
pub mod Endpoints
pub mod Control
pub mod Transmit
pub mod Caches
pub mod Sequence
pub mod Origin
pub mod Overlap
pub mod Bounds
pub mod Search
