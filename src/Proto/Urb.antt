-- ===== src/Proto/Urb.antt =====
-- crates/usbip-proto/src/urb.rs: the messages of URB mode. Each has a basic header of 20 bytes and 28
-- bytes of its own; a reply to an IN transfer has the payload behind them.
pub mod Messages
pub mod Replies
pub mod RoundTrip
pub mod Exact
