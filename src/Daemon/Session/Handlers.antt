-- ===== src/Daemon/Session/Handlers.antt =====
-- The handlers of crates/usbipd/src/daemon.rs, up to the URB loop.
use usbipd_darwin.Common.{
  ℕ, List, [], ◌∷◌, Option, none, some, not, Result, ok, err, ◌==◌, nat_eq, text_eq, if◌then◌else◌,
  find,
}
use usbipd_darwin.Proto.Op.Header
use usbipd_darwin.Proto.Op.Header.{OpHeader, usbip_version, op_req_devlist, op_req_import}
use usbipd_darwin.Proto.Op.Device.{
  decode_req_import_busid, encode_rep_import_ok, encode_rep_import_err,
}
use usbipd_darwin.Host.Nusb.{DeviceInfo, NusbError}
use usbipd_darwin.Host.Devices.{UsbInterface, UsbDevice, list_devices}
use usbipd_darwin.Host.Open.{Usb, HostError, OpenedDevice, open_busid, descriptor_snapshot}
use usbipd_darwin.Daemon.Policy.{permits, filter_devices}
use usbipd_darwin.Daemon.Attach.{try_attach}
use usbipd_darwin.Daemon.Wire.{to_exported, encode_rep_devlist}
use usbipd_darwin.Daemon.Session.Flow.{
  read_op_header, read_import_busid, decode_op_header, decode_busid, enumerate_devices,
  write_devlist, write_import_reply, World, Flow, M, ◌>>=◌, ◌>>◌, pure, finish, lift, read_exact,
  write_all, try_write, guarded,
}

-- What the host answers during a session: the listing of the handler, and what the opening of the
-- device meets.
pub record Host : Type 0 where
  pub listed : Result (List DeviceInfo) NusbError
  pub usb : Usb

unfoldable pub send_import_err : {A : Type 0} → M A
unfolding try_write
send_import_err = do try_write (encode_rep_import_err []); finish (ok tt)

unfoldable pub handle_devlist : {A : Type 0} → Host → M A
unfolding write_all
handle_devlist host w =
    (do
      devices ← lift enumerate_devices (list_devices host.listed)
      write_all (encode_rep_devlist (filter_devices w.state.policy devices)) write_devlist
      finish (ok tt))
      w

-- `let Some(desc) = … else { return send_import_err(..) }`
or_refuse : {A : Type 0} → Option A → M A
unfolding send_import_err
or_refuse none = send_import_err
or_refuse (some a) = pure a

-- The claim of the device, under the mutex.
attach : List ℕ → List ℕ → M (Unit {0})
unfolding send_import_err
attach busid peer w = elim (try_attach busid peer w.state) as (λ _. Flow (Unit {0}) × World) [
  | none ↦ send_import_err w
  | some state ↦ pure tt (record w { state = state })
]

-- The record of the reply: the numbers and the configuration of the opened device, and the rest of
-- the listed one; an empty list of interfaces is taken from the listing too.
unfoldable pub describe : UsbDevice → UsbDevice → UsbDevice
describe desc snap = record desc {
  busid = snap.busid;
  busnum = snap.busnum;
  devnum = snap.devnum;
  configuration_value = snap.configuration_value;
  num_configurations = snap.num_configurations;
  interfaces = elim snap.interfaces as (λ _. List UsbInterface) [
    | [] ↦ desc.interfaces
    | i ∷ is ↦ i ∷ is
  ];
}

or_open_failed : {A : Type 0} → Result A HostError → M A
unfolding send_import_err
or_open_failed (err e) = send_import_err
or_open_failed (ok a) = pure a

-- What follows the claim: it runs under the guard.
unfoldable pub open_claimed : Host → List ℕ → UsbDevice → M (UsbDevice × OpenedDevice)
unfolding or_open_failed write_all
open_claimed host busid listed = do
  opened ← or_open_failed (open_busid host.usb busid)
  let desc = describe listed (descriptor_snapshot host.usb opened)
  write_all (encode_rep_import_ok [] (to_exported desc)) write_import_reply
  pure (desc, opened)

-- The claim, and the opening under its guard.
unfoldable pub claim_and_open : Host → List ℕ → List ℕ → UsbDevice → M (UsbDevice × OpenedDevice)
unfolding attach
claim_and_open host peer busid desc = do
  attach busid peer
  guarded busid (open_claimed host busid desc)

-- Goes on into the URB loop with the described and the opened device, and the guard still held.
unfoldable pub handle_import : Host → List ℕ → M (UsbDevice × OpenedDevice)
unfolding read_exact or_refuse claim_and_open
handle_import host peer w =
    (do
      buf ← read_exact 32 read_import_busid
      busid ← lift decode_busid (decode_req_import_busid buf)
      devices ← lift enumerate_devices (list_devices host.listed)
      desc ← or_refuse (find (λ d. d.busid == busid) devices)
      if permits w.state.policy desc.vendor_id desc.product_id
          then claim_and_open host peer busid desc
          else send_import_err)
      w

unfoldable pub handle_session : Host → List ℕ → M (UsbDevice × OpenedDevice)
unfolding handle_devlist handle_import read_exact
handle_session host peer = do
  buf ← read_exact Header.size read_op_header
  header ← lift decode_op_header (Header.decode buf)
  if not (header.version == usbip_version)
      then finish (ok tt)
      else if header.code == op_req_devlist
      then handle_devlist host
      else if header.code == op_req_import
      then handle_import host peer
      else finish (ok tt)
