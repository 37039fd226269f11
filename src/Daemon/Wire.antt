-- ===== src/Daemon/Wire.antt =====
-- What crates/usbipd/src/daemon.rs writes: the device list, and a host device as a wire record.
pub mod Client
use usbipd_darwin.Common.{
  ℕ, ◌+◌, ◌^◌, List, [], ◌∷◌, ◌++◌, not, ◌==◌, nat_eq, ltb, if◌then◌else◌, map, filter, length,
  codes, ◌-◌,
}
use usbipd_darwin.Common.Words.{u32_to_be_bytes}
use usbipd_darwin.Proto.Op.Header
use usbipd_darwin.Proto.Op.Header.{op_rep_devlist}
use usbipd_darwin.Proto.Op.Device
use usbipd_darwin.Proto.Op.Device.{ExportedInterface, ExportedDevice}
use usbipd_darwin.Host.Devices.{UsbInterface, UsbDevice}

unfoldable pub interface_to_exported : UsbInterface → ExportedInterface
interface_to_exported i = record { class = i.class; subclass = i.subclass; protocol = i.protocol }

unfoldable pub to_exported : UsbDevice → ExportedDevice
to_exported d = record {
  path = codes "/usbipd-darwin/" ++ d.busid;
  busid = d.busid;
  busnum = d.busnum;
  devnum = d.devnum;
  speed = d.speed;
  id_vendor = d.vendor_id;
  id_product = d.product_id;
  bcd_device = d.bcd_device;
  b_device_class = d.class;
  b_device_subclass = d.subclass;
  b_device_protocol = d.protocol;
  b_configuration_value = d.configuration_value;
  b_num_configurations = d.num_configurations;
  interfaces = map interface_to_exported d.interfaces;
}

-- `for d in exported`
unfoldable pub encode_devices : List UsbDevice → List ℕ → List ℕ
encode_devices [] out = out
encode_devices (d ∷ ds) out = encode_devices ds (Device.encode (to_exported d) out)

-- `u32::try_from(n).unwrap_or(u32::MAX)`
abbrev pub saturate_u32 : ℕ → ℕ
saturate_u32 n = if ltb n (2 ^ 32) then n else 2 ^ 32 - 1

-- `devices.iter().filter(|d| d.class != 0x09)`: the devices that are no hubs.
unfoldable pub without_hubs : List UsbDevice → List UsbDevice
without_hubs devices = filter (λ d. not (d.class == 0x09)) devices

unfoldable pub encode_rep_devlist : List UsbDevice → List ℕ
encode_rep_devlist devices =
    let exported = without_hubs devices in
    encode_devices exported (
      Header.encode (Header.new op_rep_devlist) []
      ++ u32_to_be_bytes (saturate_u32 (length exported)))
