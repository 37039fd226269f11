-- ===== src/Tests/Session.antt =====
-- Sessions, claims and the policy of crates/usbipd/src/daemon.rs.
use usbipd_darwin.Common.{
  ℕ, ◌≤◌, ◌<◌, ◌^◌, ◌≡◌, ◌≢◌, ◌↔◌, ◌⊎◌, refl, arith, List, [], ◌∷◌, ◌++◌, some, none, ok, true,
  codes, map, length, All, text_eq,
}
use usbipd_darwin.Common.Map
use usbipd_darwin.Proto.Op.Header
use usbipd_darwin.Proto.Op.Header.{OpHeader, op_req_import, op_req_devlist, op_rep_devlist}
use usbipd_darwin.Proto.Op.Device.{
  write_fixed_str, position_zero, read_fixed_str, decode_req_import_busid, encode_rep_import_ok,
  encode_rep_import_err,
}
use usbipd_darwin.Common.Utf8.{from_utf8_lossy}
use usbipd_darwin.Host.Devices.{
  speed_to_usbip, UsbDevice, list_devices, from_info, from_nusb, format_busid, join_ports,
  u8_to_string,
}
use usbipd_darwin.Host.Open.{open_busid, maybe_capture}
use usbipd_darwin.Host.Ids.{pack_devid, derive_bus_dev, derive_bus_dev_bounds}
use usbipd_darwin.Proto.Op.Texts.{FitsIn}
use usbipd_darwin.Daemon.Policy.{
  AccessPolicy, allow_list, permits, contains, deny_all, filter_devices,
}
use usbipd_darwin.Daemon.Attach.{DaemonState, new, try_attach}
use usbipd_darwin.Daemon.Attach.Exclusion.{
  held, Reach, init, next, attach, exclusive, try_attach-drop_guard,
}
use usbipd_darwin.Daemon.Attach.Exclusion as Exclusion
use usbipd_darwin.Daemon.Wire.{to_exported, without_hubs}
use usbipd_darwin.Daemon.Wire.Client.{IsPortable, read_devlist}
use usbipd_darwin.Daemon.Session.Flow.{World, go, stop}
use usbipd_darwin.Daemon.Session.Handlers.{
  handle_import, handle_session, describe, open_claimed, send_import_err,
}
use usbipd_darwin.Daemon.Session.Import.{handle_import-go, handle_import-stop}
use usbipd_darwin.Daemon.Session.Devlist.{handle_session-devlist}
use usbipd_darwin.Tests.Samples.{
  stick_host, stick_info, stick_busid-FitsIn, stick_path-FitsIn, stick_busid, session, listed_stick,
  imported_stick, opened_stick,
}

abbrev pub peer : List ℕ
peer = codes "client"

-- One client with the device.
abbrev empty_state : DaemonState
empty_state = record { policy = deny_all; attached = [] }

abbrev held_state : DaemonState
held_state = record { policy = deny_all; attached = (stick_busid, peer) ∷ [] }

held_state-attached : try_attach stick_busid peer empty_state ≡ some held_state
unfolding try_attach Map.get Map.insert
held_state-attached = refl

abbrev one_guard : Exclusion.World
one_guard = record { state = held_state; guards = stick_busid ∷ [] }

one_guard-reached : Reach deny_all one_guard
unfolding new
one_guard-reached = next init (
    attach (record { state = empty_state; guards = [] }) stick_busid peer held_state
      held_state-attached)

exclusive_example :
    (held stick_busid one_guard.guards ≤ 1)
    × ((held stick_busid one_guard.guards ≡ 1)
        ↔ (Map.get stick_busid one_guard.state.attached ≢ none))
exclusive_example = exclusive one_guard-reached stick_busid

-- The session of a client that imports the device, behind its header.
abbrev pub importing : World
importing = session (write_fixed_str [] stick_busid 32)

abbrev import_reply : List ℕ
import_reply = encode_rep_import_ok [] (to_exported imported_stick)

abbrev imported : World
imported = record importing {
  conn = record importing.conn { input = []; sent = import_reply; writes_left = 2 };
  state = record importing.state { attached = (stick_busid, peer) ∷ [] };
}

import_goes :
    handle_import stick_host peer importing ≡ (go (imported_stick, opened_stick), imported)
unfolding handle_import decode_req_import_busid write_fixed_str position_zero from_utf8_lossy
    list_devices from_info from_nusb format_busid join_ports u8_to_string permits contains
    try_attach Map.get Map.insert open_busid maybe_capture describe read_fixed_str open_claimed
import_goes = refl

handle_import-go_example :
    (permits importing.state.policy imported_stick.vendor_id imported_stick.product_id ≡ true)
    × (Map.get imported_stick.busid importing.state.attached ≡ none)
    × (Map.get imported_stick.busid imported.state.attached ≡ some peer)
    × (imported.conn.sent
        ≡ importing.conn.sent ++ encode_rep_import_ok [] (to_exported imported_stick))
    × (pack_devid imported_stick.busnum imported_stick.devnum ≡ opened_stick.devid)
handle_import-go_example =
    handle_import-go stick_host peer importing imported imported_stick opened_stick import_goes

-- The same request while another client holds the device.
abbrev busy : World
busy = record importing {
  state = record importing.state { attached = (stick_busid, codes "other") ∷ [] };
}

abbrev refused : World
refused = record busy {
  conn = record busy.conn { input = []; sent = encode_rep_import_err []; writes_left = 2 };
}

import_stops : handle_import stick_host peer busy ≡ (stop (ok tt), refused)
unfolding handle_import decode_req_import_busid write_fixed_str position_zero from_utf8_lossy
    list_devices from_info from_nusb format_busid join_ports u8_to_string permits contains
    try_attach Map.get Map.insert read_fixed_str send_import_err
import_stops = refl

handle_import-stop_example :
    ((k : List ℕ) → Map.get k refused.state.attached ≡ Map.get k busy.state.attached)
    × (refused.state.policy ≡ busy.state.policy)
    × ((refused.conn.sent ≡ busy.conn.sent)
        ⊎ (refused.conn.sent ≡ busy.conn.sent ++ encode_rep_import_err []))
handle_import-stop_example = handle_import-stop stick_host peer busy refused (ok tt) import_stops

-- The list of the device.
abbrev pub shown : List UsbDevice
shown = listed_stick ∷ []

pub listed_text : FitsIn 32 listed_stick.busid
unfolding from_info from_nusb format_busid join_ports u8_to_string
listed_text = stick_busid-FitsIn

listed_path : FitsIn 256 (to_exported listed_stick).path
unfolding to_exported from_info from_nusb format_busid join_ports u8_to_string
listed_path = stick_path-FitsIn

listed_stick-IsPortable : IsPortable listed_stick
unfolding to_exported from_info from_nusb derive_bus_dev
listed_stick-IsPortable =
    let (bus, dev) =
      derive_bus_dev_bounds stick_info.bus_id stick_info.port_chain stick_info.device_address in
    (
      record {
        path = listed_path;
        busid = listed_text;
        busnum = omega (arith, bus);
        devnum = omega (arith, dev);
        speed = (unfold speed_to_usbip in omega arith);
        id_vendor = omega arith;
        id_product = omega arith;
        bcd_device = omega arith;
      },
      omega arith,
    )

abbrev all_policy : AccessPolicy
all_policy = allow_list ((0x0781, 0x5530) ∷ [])

IsPortable-listed : All IsPortable (without_hubs shown)
unfolding without_hubs from_info from_nusb
IsPortable-listed = (listed_stick-IsPortable, tt)

IsPortable-shown : All IsPortable (without_hubs (filter_devices all_policy shown))
unfolding without_hubs filter_devices permits contains from_info from_nusb
IsPortable-shown = (listed_stick-IsPortable, tt)

listed_bound : length (without_hubs shown) < 2 ^ 32
unfolding without_hubs from_info from_nusb
listed_bound = omega arith

shown_bound : length (without_hubs (filter_devices all_policy shown)) < 2 ^ 32
unfolding without_hubs filter_devices permits contains from_info from_nusb
shown_bound = omega arith

pub shown_listed : list_devices stick_host.listed ≡ ok shown
unfolding list_devices
shown_listed = refl

abbrev asking : World
asking = session (Header.encode (Header.new op_req_devlist) [] ++ [])

handle_session-devlist_example :
    (v : World) × (reply : List ℕ) × (handle_session stick_host peer asking ≡ (stop (ok tt), v))
    × (v.state ≡ asking.state)
    × (v.conn.sent ≡ asking.conn.sent ++ reply)
    × (read_devlist reply
        ≡ ok (
          Header.new op_rep_devlist,
          map to_exported (without_hubs (filter_devices asking.state.policy shown)),
        ))
handle_session-devlist_example =
    handle_session-devlist stick_host peer asking shown 2 [] shown_listed refl refl IsPortable-shown
      shown_bound

-- A client of another version.
abbrev old_header : OpHeader
old_header = record { version = 0x0106; code = op_req_devlist; status = 0 }
