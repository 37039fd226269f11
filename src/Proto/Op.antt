-- ===== src/Proto/Op.antt =====
-- crates/usbip-proto/src/op.rs: the op header, the device records of the list, and the import
-- request and replies. `encode` appends to the buffer `out`, as the methods do.
pub mod Header
pub mod Device
pub mod Layout
pub mod Texts
pub mod RoundTrip
pub mod Reads
