-- ===== src/Host.antt =====
-- crates/host-mac: the USB devices of the host, through nusb and IOKit, which are parameters.
pub mod Nusb
pub mod Ids
pub mod Devices
pub mod Open
pub mod Transfer
pub mod Capture
pub mod Release
pub mod Setup
