-- ===== src/Tests/Listed.antt =====
-- An import of a device from the list, of crates/usbipd/src/daemon.rs.
use mathlib.Core.List.{Memᴰ}
use usbipd_darwin.Common.{◌≡◌, refl, [], ◌++◌, some, ok, text_eq}
use usbipd_darwin.Common.Map
use usbipd_darwin.Proto.Op.Device.{write_fixed_str, encode_rep_import_ok}
use usbipd_darwin.Host.Devices.{
  UsbDevice, from_info, from_nusb, format_busid, join_ports, u8_to_string,
}
use usbipd_darwin.Host.Open.{open_busid, maybe_capture}
use usbipd_darwin.Daemon.Policy.{permits, contains, filter_devices}
use usbipd_darwin.Daemon.Wire.{to_exported}
use usbipd_darwin.Daemon.Session.Flow.{World, go}
use usbipd_darwin.Daemon.Session.Handlers.{handle_import}
use usbipd_darwin.Daemon.Session.Listed.{handle_import-listed}
use usbipd_darwin.Tests.Samples.{stick_host, listed_stick, opened_stick}
use usbipd_darwin.Tests.Session.{peer, importing, listed_text, shown, shown_listed}

shown_to_client : Memᴰ listed_stick (filter_devices importing.state.policy shown)
unfolding filter_devices permits contains from_info from_nusb
shown_to_client = Memᴰ.head refl

only_stick : (a : UsbDevice) → Memᴰ a shown → a.busid ≡ listed_stick.busid → a ≡ listed_stick
only_stick a (Memᴰ.head e) same = e
only_stick a (Memᴰ.tail m) same = elim m [ ]

listed_stick_opens : open_busid stick_host.usb listed_stick.busid ≡ ok opened_stick
unfolding open_busid maybe_capture from_info from_nusb format_busid join_ports u8_to_string
listed_stick_opens = refl

listed_request : importing.conn.input ≡ write_fixed_str [] listed_stick.busid 32 ++ []
unfolding from_info from_nusb format_busid join_ports u8_to_string write_fixed_str
listed_request = refl

handle_import-listed_example :
    (desc : UsbDevice) × (v : World) × (handle_import stick_host peer importing
      ≡ (go (desc, opened_stick), v))
    × (desc.busid ≡ listed_stick.busid)
    × (desc.vendor_id ≡ listed_stick.vendor_id)
    × (desc.product_id ≡ listed_stick.product_id)
    × (Map.get listed_stick.busid v.state.attached ≡ some peer)
    × (v.conn.sent ≡ importing.conn.sent ++ encode_rep_import_ok [] (to_exported desc))
    × (v.conn.input ≡ [])
unfolding Map.get
handle_import-listed_example =
    handle_import-listed stick_host peer importing shown listed_stick opened_stick 2 [] shown_listed
      shown_to_client only_stick listed_text listed_request refl listed_stick_opens refl
