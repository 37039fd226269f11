-- ===== src/Tests/Stream.antt =====
-- The streams of the URB mode of crates/usbipd/src/daemon.rs.
use usbipd_darwin.Common.{
  ℕ, ◌≡◌, refl, arith, List, [], ◌∷◌, ◌++◌, some, All, All-append, All-replicate, replicate, nat_eq,
}
use usbipd_darwin.Common.Words.{IsBytes, IsU8}
use usbipd_darwin.Proto.Urb.Messages.{UrbHeader, CmdUnlink}
use usbipd_darwin.Daemon.Conn.{Conn, unexpected_eof}
use usbipd_darwin.Daemon.Urb.Requests.{Request, submit, unlink, buffer_length, read_request}
use usbipd_darwin.Daemon.Urb.Reading.{
  LoopEnd, client_gone, held_up, IsRequest, requests_bytes, read_all, go_through, unlink_replies,
  unlinks,
}
use usbipd_darwin.Daemon.Urb.Reading.Exact.{IsExact, read_request_exact}
use usbipd_darwin.Daemon.Urb.Reading.Outcome.{IsRead}
use usbipd_darwin.Daemon.Urb.Reading.Total.{read_all-total}
use usbipd_darwin.Daemon.Urb.Reading.RoundTrip.{read_all-requests_bytes}
use usbipd_darwin.Common.{text_eq}
use usbipd_darwin.Common.Map
use usbipd_darwin.Proto.Op.Header
use usbipd_darwin.Proto.Urb.Messages.{decode_header, decode_cmd_unlink}
use usbipd_darwin.Host.Ids.{
  pack_devid, derive_bus_dev, derive_bus_dev_inner, parse_bus_id, parse_u32, fold_to_u8, hash_step,
  hash_bytes,
}
use usbipd_darwin.Common.Utf8.{from_utf8_lossy}
use usbipd_darwin.Proto.Op.Device.{position_zero, read_fixed_str, decode_req_import_busid}
use usbipd_darwin.Host.Devices.{
  UsbDevice, list_devices, from_info, from_nusb, format_busid, join_ports, u8_to_string,
}
use usbipd_darwin.Host.Open.{open_busid, maybe_capture, descriptor_snapshot}
use usbipd_darwin.Daemon.Policy.{permits, contains}
use usbipd_darwin.Daemon.Attach.{try_attach, drop_guard}
use usbipd_darwin.Daemon.Session.Flow.{World}
use usbipd_darwin.Daemon.Session.Handlers.{handle_session, handle_import, describe, open_claimed}
use usbipd_darwin.Daemon.Session.Whole.{Outcome, urb_mode, run_session}
use usbipd_darwin.Daemon.Urb.Requests.{dispatch, read_unlink}
use usbipd_darwin.Tests.Samples.{basic_header, submit_command, stick_host, session, opened_stick}

abbrev unlink_header : UrbHeader
unlink_header = record { command = 2; seqnum = 43; devid = 0x10005; direction = 0; ep = 0 }

abbrev unlink_command : CmdUnlink
unlink_command = record { unlink_seqnum = 42; padding = replicate 24 0 }

-- A transfer to the device, and its unlink.
abbrev requests : List Request
requests =
    submit basic_header submit_command (7 ∷ 8 ∷ []) ∷ unlink unlink_header unlink_command ∷ []

zeros-IsBytes : IsBytes (replicate 24 0)
zeros-IsBytes = All-replicate IsU8 24 0 (omega arith)

requests-IsRequest : All (IsRequest 0x10005) requests
unfolding buffer_length
requests-IsRequest = (
  (
    (omega arith, omega arith, omega arith, omega arith, omega arith),
    refl,
    refl,
    (omega arith, omega arith, omega arith, omega arith, omega arith, refl),
    refl,
    (omega arith, (omega arith, tt)),
  ),
  (
    (
      (omega arith, omega arith, omega arith, omega arith, omega arith),
      refl,
      refl,
      (omega arith, refl),
      zeros-IsBytes,
    ),
    tt,
  ),
)

abbrev cut_short : Conn
cut_short = record {
  input = requests_bytes requests ++ (0 ∷ 0 ∷ []);
  ending = unexpected_eof;
  sent = [];
  writes_left = 1;
}

read_all-requests_bytes_example :
    (d : Conn) × (read_all 0x10005 3 2 cut_short ≡ some (requests, client_gone, d))
    × (d.sent ≡ [] ++ unlink_replies requests)
unfolding unlinks
read_all-requests_bytes_example =
    read_all-requests_bytes 0x10005 3 2 requests (0 ∷ 0 ∷ []) cut_short requests-IsRequest refl
      (omega arith) refl (omega arith) (omega arith) (omega arith)

-- The bytes of an unlink, and two more.
abbrev unlink_front : List ℕ
unlink_front =
    0 ∷ 0 ∷ 0 ∷ 2 ∷ 0 ∷ 0 ∷ 0 ∷ 43 ∷ 0 ∷ 1 ∷ 0 ∷ 5 ∷ 0 ∷ 0 ∷ 0 ∷ 0 ∷ 0 ∷ 0 ∷ 0 ∷ 0 ∷ 0 ∷ 0 ∷ 0 ∷ 42
    ∷ []

abbrev one_unlink : Conn
one_unlink = record {
  input = unlink_front ++ (replicate 24 0 ++ (1 ∷ 2 ∷ []));
  ending = unexpected_eof;
  sent = [];
  writes_left = 1;
}

one_unlink-IsBytes : IsBytes one_unlink.input
one_unlink-IsBytes =
    All-append IsU8 unlink_front (replicate 24 0 ++ (1 ∷ 2 ∷ [])) (ground arith)
      (All-append IsU8 (replicate 24 0) (1 ∷ 2 ∷ []) zeros-IsBytes (ground arith))

read_all-total_example :
    (rs : List Request) × (e : LoopEnd) × (d : Conn) × (read_all 0x10005 2 5 one_unlink
      ≡ some (rs, e, d))
    × IsRead 0x10005 5 one_unlink rs e d
read_all-total_example = read_all-total 0x10005 2 5 one_unlink one_unlink-IsBytes (omega arith)

read_request_exact_example : IsExact 0x10005 one_unlink.input (read_request 0x10005 one_unlink)
read_request_exact_example = read_request_exact 0x10005 one_unlink one_unlink-IsBytes

-- A client that imports the stick, unlinks a transfer, and goes away.
abbrev import_front : List ℕ
import_front = 1 ∷ 0x11 ∷ 0x80 ∷ 3 ∷ 0 ∷ 0 ∷ 0 ∷ 0 ∷ 48 ∷ 49 ∷ 45 ∷ 49 ∷ []

abbrev stick_unlink_front : List ℕ
stick_unlink_front =
    0 ∷ 0 ∷ 0 ∷ 2 ∷ 0 ∷ 0 ∷ 0 ∷ 43 ∷ 0 ∷ 1 ∷ 0 ∷ 207 ∷ 0 ∷ 0 ∷ 0 ∷ 0 ∷ 0 ∷ 0 ∷ 0 ∷ 0 ∷ 0 ∷ 0 ∷ 0
    ∷ 42 ∷ []

abbrev importer : World
importer = session (import_front ++ (replicate 28 0 ++ (stick_unlink_front ++ replicate 24 0)))

abbrev stick_unlinks : List Request
stick_unlinks = unlink (record unlink_header { devid = 0x100cf }) unlink_command ∷ []

importer-runs :
    (desc : UsbDevice) × (run_session stick_host [] 3 1 importer
      ≡ some (urb_mode desc opened_stick stick_unlinks client_gone, importer.state))
unfolding run_session handle_session handle_import decode_req_import_busid position_zero
    from_utf8_lossy list_devices from_info from_nusb format_busid join_ports u8_to_string permits
    contains try_attach Map.get Map.insert open_busid maybe_capture describe read_fixed_str
    open_claimed read_all go_through dispatch read_unlink drop_guard Map.remove Header.decode
    decode_header pack_devid descriptor_snapshot derive_bus_dev derive_bus_dev_inner parse_bus_id
    parse_u32 fold_to_u8 hash_step hash_bytes decode_cmd_unlink
importer-runs = (_, refl)

-- Where no wait comes back, the loop waits with the unlink, and the stick stays attached.
importer_waits :
    (desc : UsbDevice) × (run_session stick_host [] 3 0 importer
      ≡ some (
        urb_mode desc opened_stick []
            (held_up (unlink (record unlink_header { devid = 0x100cf }) unlink_command)),
        record importer.state { attached = Map.insert desc.busid [] importer.state.attached },
      ))
unfolding run_session handle_session handle_import decode_req_import_busid position_zero
    from_utf8_lossy list_devices from_info from_nusb format_busid join_ports u8_to_string permits
    contains try_attach Map.get Map.insert open_busid maybe_capture describe read_fixed_str
    open_claimed read_all go_through dispatch read_unlink drop_guard Map.remove Header.decode
    decode_header pack_devid descriptor_snapshot derive_bus_dev derive_bus_dev_inner parse_bus_id
    parse_u32 fold_to_u8 hash_step hash_bytes decode_cmd_unlink
importer_waits = (_, refl)
