-- ===== src/Tests/Samples.antt =====
-- A device and what serves it, for the tests of crates/usbipd, crates/host-mac and crates/usbip-proto.
use usbipd_darwin.Common.{
  ℕ, List, [], ◌∷◌, some, none, ok, false, codes, pos, negsuc, arith, replicate, refl, ◌≡◌,
}
use usbipd_darwin.Common.Utf8.{IsUtf8, encode_utf8}
use usbipd_darwin.Proto.Op.Texts.{FitsIn}
use usbipd_darwin.Proto.Op.RoundTrip.{IsExportable}
use usbipd_darwin.Proto.Urb.Messages.{UrbHeader, CmdSubmit}
use usbipd_darwin.Proto.Op.Device.{ExportedDevice}
use usbipd_darwin.Host.Nusb.{DeviceInfo, high}
use usbipd_darwin.Host.Devices.{UsbDevice, from_info, format_busid, join_ports, u8_to_string}
use usbipd_darwin.Host.Ids.{pack_devid, derive_bus_dev}
use usbipd_darwin.Host.Open.{Usb, OpenedDevice, open_busid, maybe_capture, descriptor_snapshot}
use usbipd_darwin.Daemon.Policy.{allow_list}
use usbipd_darwin.Daemon.Conn.{unexpected_eof}
use usbipd_darwin.Daemon.Session.Flow.{World}
use usbipd_darwin.Daemon.Session.Handlers.{Host, describe}

abbrev pub stick_info : DeviceInfo
stick_info = record {
  bus_id = codes "01";
  port_chain = 1 ∷ [];
  device_address = 5;
  location_id = 7;
  registry_entry_id = 9;
  speed = some high;
  vendor_id = 0x0781;
  product_id = 0x5530;
  device_version = 0x0100;
  class = 0;
  subclass = 0;
  protocol = 0;
  manufacturer_string = none;
  product_string = none;
  serial_number = none;
  interfaces = record { class = 8; subclass = 6; protocol = 80 } ∷ [];
}

abbrev pub stick_busid : List ℕ
stick_busid = codes "01-1"

abbrev pub quiet_usb : Usb
quiet_usb = record {
  listed = ok (stick_info ∷ []);
  is_root = false;
  reenumerate_with_capture = λ _. ok tt;
  relisted = λ _. ok [];
  deadline_passed = λ _. false;
  open_device = λ _. ok tt;
  active_configuration = some (record {
    configuration_value = 1;
    alt_settings =
        record { number = 0; alternate_setting = 0; class = 8; subclass = 6; protocol = 80 } ∷ [];
  });
  configurations = 1;
}

abbrev pub stick_host : Host
stick_host = record { listed = ok (stick_info ∷ []); usb = quiet_usb }

-- A session whose client sends `input`.
abbrev pub session : List ℕ → World
session input = record {
  conn = record { input = input; ending = unexpected_eof; sent = []; writes_left = 3 };
  state = record { policy = allow_list ((0x0781, 0x5530) ∷ []); attached = [] };
}

abbrev pub stick : ExportedDevice
stick = record {
  path = codes "/usbipd-darwin/01-1";
  busid = stick_busid;
  busnum = 1;
  devnum = 5;
  speed = 3;
  id_vendor = 0x0781;
  id_product = 0x5530;
  bcd_device = 0x0100;
  b_device_class = 0;
  b_device_subclass = 0;
  b_device_protocol = 0;
  b_configuration_value = 1;
  b_num_configurations = 1;
  interfaces = record { class = 8; subclass = 6; protocol = 80 } ∷ [];
}

stick_text : IsUtf8 stick_busid
stick_text = record {
  chars = stick_busid;
  valid = ground arith;
  bytes = unfold encode_utf8 in refl;
}

pub stick_busid-FitsIn : FitsIn 32 stick_busid
stick_busid-FitsIn = record { fits = omega arith; no_zero = ground arith; text = stick_text }

pub stick_path-FitsIn : FitsIn 256 (codes "/usbipd-darwin/01-1")
stick_path-FitsIn = record {
  fits = omega arith;
  no_zero = ground arith;
  text = record {
    chars = codes "/usbipd-darwin/01-1";
    valid = ground arith;
    bytes = unfold encode_utf8 in refl;
  };
}

pub stick-IsExportable : IsExportable stick
stick-IsExportable = record {
  path = stick_path-FitsIn;
  busid = stick_busid-FitsIn;
  busnum = omega arith;
  devnum = omega arith;
  speed = omega arith;
  id_vendor = omega arith;
  id_product = omega arith;
  bcd_device = omega arith;
}

abbrev pub many_interfaces : ℕ → ExportedDevice
many_interfaces n = record stick {
  interfaces = replicate n (record { class = 3; subclass = 0; protocol = 0 });
}

abbrev pub basic_header : UrbHeader
basic_header = record { command = 1; seqnum = 42; devid = 0x10005; direction = 0; ep = 2 }

-- A command that sends two bytes.
abbrev pub submit_command : CmdSubmit
submit_command = record {
  transfer_flags = 0;
  transfer_buffer_length = pos 2;
  start_frame = pos 0;
  number_of_packets = negsuc 0;
  interval = pos 0;
  setup = replicate 8 0;
}

abbrev pub opened_stick : OpenedDevice
opened_stick = record {
  busid = stick_busid;
  devid = pack_devid (derive_bus_dev stick_info).0 (derive_bus_dev stick_info).1;
  interfaces = [];
  alt_settings = [];
  endpoints = [];
  captured_registry_id = none;
  captured_vid_pid = none;
}

pub stick_opens : open_busid quiet_usb stick_busid ≡ ok opened_stick
unfolding open_busid maybe_capture format_busid join_ports u8_to_string
stick_opens = refl

-- The listing, and the record of the import reply.
abbrev pub listed_stick : UsbDevice
listed_stick = from_info stick_info

abbrev pub imported_stick : UsbDevice
imported_stick = describe listed_stick (descriptor_snapshot quiet_usb opened_stick)
