-- ===== src/Host/Devices.antt =====
-- Devices as crates/host-mac/src/lib.rs lists them. Text is its bytes.
use usbipd_darwin.Common.{
  ℕ, ◌+◌, ◌/◌, ◌%◌, List, [], ◌∷◌, ◌++◌, Option, some, map, Result, ok, ◌>>=◌, ltb, if◌then◌else◌,
  codes,
}
use usbipd_darwin.Host.Nusb.{
  Speed, low, full, high, super, super_plus, InterfaceInfo, DeviceInfo, NusbError,
}
use usbipd_darwin.Host.Ids.{derive_bus_dev}
pub mod Busid

pub record UsbInterface : Type 0 where
  pub class : ℕ
  pub subclass : ℕ
  pub protocol : ℕ

pub record UsbDevice : Type 0 where
  pub busid : List ℕ
  pub busnum : ℕ
  pub devnum : ℕ
  pub speed : ℕ
  pub vendor_id : ℕ
  pub product_id : ℕ
  pub bcd_device : ℕ
  pub class : ℕ
  pub subclass : ℕ
  pub protocol : ℕ
  pub configuration_value : ℕ
  pub num_configurations : ℕ
  pub manufacturer : Option (List ℕ)
  pub product : Option (List ℕ)
  pub serial : Option (List ℕ)
  pub interfaces : List UsbInterface

unfoldable pub speed_to_usbip : Option Speed → ℕ
speed_to_usbip (some low) = 1
speed_to_usbip (some full) = 2
speed_to_usbip (some high) = 3
speed_to_usbip (some super) = 5
speed_to_usbip (some super_plus) = 6
speed_to_usbip _ = 0

-- `u8::to_string`
unfoldable pub u8_to_string : ℕ → List ℕ
u8_to_string n =
    if ltb n 10
    then (b'0' + n) ∷ []
    else if ltb n 100
    then (b'0' + n / 10) ∷ (b'0' + n % 10) ∷ []
    else (b'0' + n / 100) ∷ (b'0' + n / 10 % 10) ∷ (b'0' + n % 10) ∷ []

-- `ports.join(".")`
unfoldable pub join_ports : List ℕ → List ℕ
join_ports [] = []
join_ports (p ∷ []) = u8_to_string p
join_ports (p ∷ q ∷ ps) = u8_to_string p ++ (b'.' ∷ join_ports (q ∷ ps))

unfoldable pub format_busid : DeviceInfo → List ℕ
format_busid i = elim i.port_chain as (λ _. List ℕ) [
  | [] ↦ i.bus_id ++ (codes "-0." ++ u8_to_string i.device_address)
  | p ∷ ps ↦ i.bus_id ++ (codes "-" ++ join_ports (p ∷ ps))
]

interface_from : InterfaceInfo → UsbInterface
interface_from i = record { class = i.class; subclass = i.subclass; protocol = i.protocol }

unfoldable pub from_nusb : DeviceInfo → ℕ → ℕ → UsbDevice
unfolding interface_from
from_nusb i busnum devnum = record {
  busid = format_busid i;
  busnum = busnum;
  devnum = devnum;
  speed = speed_to_usbip i.speed;
  vendor_id = i.vendor_id;
  product_id = i.product_id;
  bcd_device = i.device_version;
  class = i.class;
  subclass = i.subclass;
  protocol = i.protocol;
  configuration_value = 1;
  num_configurations = 1;
  manufacturer = i.manufacturer_string;
  product = i.product_string;
  serial = i.serial_number;
  interfaces = map interface_from i.interfaces;
}

unfoldable pub from_info : DeviceInfo → UsbDevice
from_info i = let (busnum, devnum) = derive_bus_dev i in from_nusb i busnum devnum

-- `nusb::list_devices().wait()?`, and each device turned into a record.
unfoldable pub list_devices : Result (List DeviceInfo) NusbError → Result (List UsbDevice) NusbError
list_devices listed = do infos ← listed; ok (map from_info infos)
