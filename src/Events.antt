-- ===== src/Events.antt =====
-- The hotplug stream of crates/usbipd/src/events.rs: the lines, the publisher with its map of
-- identities, the hub, the subscribers that it serves, and its socket.
pub mod Lines
pub mod Publisher
pub mod Hub
pub mod Consumer
pub mod Invariant
pub mod Consistent
pub mod Devices
pub mod Listener
