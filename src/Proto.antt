-- ===== src/Proto.antt =====
-- crates/usbip-proto: the types of the USB/IP wire protocol and their codec. All integers on the
-- wire are big-endian; all strings have a fixed width and are padded with zero bytes.
pub mod Error
pub mod Op
pub mod Urb
