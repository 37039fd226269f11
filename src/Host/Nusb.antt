-- ===== src/Host/Nusb.antt =====
-- What crates/host-mac reads from nusb: the description of a device, as `nusb::DeviceInfo` gives it.
-- The values are data of the environment; nothing is assumed of them here but their widths.
use usbipd_darwin.Common.{ℕ, List, Option}
use usbipd_darwin.Common.Words.{IsU8, IsU16, IsBytes}

-- `nusb::Speed`; the type is open, so there is a case for what else nusb may report.
pub data Speed : Type 0 where
  low full high super super_plus other : Speed

pub record InterfaceInfo : Type 0 where
  pub class : ℕ
  pub subclass : ℕ
  pub protocol : ℕ

pub record DeviceInfo : Type 0 where
  pub bus_id : List ℕ
  pub port_chain : List ℕ
  pub device_address : ℕ
  pub location_id : ℕ
  pub registry_entry_id : ℕ
  pub speed : Option Speed
  pub vendor_id : ℕ
  pub product_id : ℕ
  pub device_version : ℕ
  pub class : ℕ
  pub subclass : ℕ
  pub protocol : ℕ
  pub manufacturer_string : Option (List ℕ)
  pub product_string : Option (List ℕ)
  pub serial_number : Option (List ℕ)
  pub interfaces : List InterfaceInfo

-- The widths of nusb's types.
pub record IsDeviceInfo (i : DeviceInfo) : Type 0 where
  pub bus_id : IsBytes i.bus_id
  pub port_chain : IsBytes i.port_chain
  pub device_address : IsU8 i.device_address
  pub vendor_id : IsU16 i.vendor_id
  pub product_id : IsU16 i.product_id
  pub device_version : IsU16 i.device_version

-- `nusb::Error`, of which the program shows the text only.
pub data NusbError : Type 0 where
  nusb_error : ℕ → NusbError
