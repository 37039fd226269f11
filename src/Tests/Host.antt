-- ===== src/Tests/Host.antt =====
-- The numbers, the setup packets and the opening of crates/host-mac.
use usbipd_darwin.Common.{◌≡◌, refl, arith, [], ◌∷◌, some}
use usbipd_darwin.Host.Nusb.{DeviceInfo, IsDeviceInfo}
use usbipd_darwin.Host.Devices.{format_busid}
use usbipd_darwin.Host.Devices.Busid.{SamePlace, format_busid-injective}
use usbipd_darwin.Host.Setup.{SetupPacket, from_bytes}
use usbipd_darwin.Tests.Samples.{stick_info}

-- SET_CONFIGURATION(1)
abbrev set_configuration : SetupPacket
set_configuration = record {
  bm_request_type = 0;
  b_request = 9;
  w_value = 1;
  w_index = 0;
  w_length = 0;
}

from_bytes-set_configuration : from_bytes (0 ∷ 9 ∷ 1 ∷ 0 ∷ 0 ∷ 0 ∷ 0 ∷ 0 ∷ []) ≡ set_configuration
unfolding from_bytes
from_bytes-set_configuration = refl

-- The stick with another product string is on the same ports.
abbrev renamed_stick : DeviceInfo
renamed_stick = record stick_info { product_string = some (65 ∷ []) }

stick-IsDeviceInfo : IsDeviceInfo stick_info
stick-IsDeviceInfo = record {
  bus_id = ground arith;
  port_chain = (omega arith, tt);
  device_address = omega arith;
  vendor_id = omega arith;
  product_id = omega arith;
  device_version = omega arith;
}

renamed_stick-IsDeviceInfo : IsDeviceInfo renamed_stick
renamed_stick-IsDeviceInfo = record {
  bus_id = ground arith;
  port_chain = (omega arith, tt);
  device_address = omega arith;
  vendor_id = omega arith;
  product_id = omega arith;
  device_version = omega arith;
}

same_busid : format_busid stick_info ≡ format_busid renamed_stick
unfolding format_busid
same_busid = refl

format_busid-injective_example :
    (stick_info.bus_id ≡ renamed_stick.bus_id) × SamePlace stick_info renamed_stick
format_busid-injective_example =
    format_busid-injective stick_info renamed_stick stick-IsDeviceInfo renamed_stick-IsDeviceInfo
      (omega arith, tt) (omega arith, tt) same_busid
