-- ===== src/Daemon/Wire/Client.antt =====
-- A client's side of the device list, as the protocol describes it, and what it gets from the daemon.
use usbipd_darwin.Common.{
  ℕ, zero, suc, ◌+◌, ◌*◌, ◌≤◌, ◌<◌, ◌^◌, List, [], ◌∷◌, ◌++◌, ◌≡◌, refl, ap, ◌∙◌, sym, map, ok,
  ◌>>=◌, length, drop, All, arith, append_assoc, append-nil, length-map, take-length_le,
  drop-append, nat_eq,
}
use usbipd_darwin.Common.Words.{index, u32_from_be_bytes, u32_be_round}
use usbipd_darwin.Proto.Error.{Decoded}
use usbipd_darwin.Proto.Op.Header
use usbipd_darwin.Proto.Op.Header.{OpHeader, op_rep_devlist}
use usbipd_darwin.Proto.Op.Device
use usbipd_darwin.Proto.Op.Device.{ExportedDevice, saturate_u8}
use usbipd_darwin.Proto.Op.Layout.{encode-append, length-encode}
use usbipd_darwin.Proto.Op.RoundTrip.{IsExportable, announced, decode-encode}
use usbipd_darwin.Host.Devices.{UsbDevice}
use usbipd_darwin.Daemon.Wire.{
  to_exported, encode_devices, without_hubs, encode_rep_devlist, saturate_u32,
}

-- Read `n` records, one behind the other.
unfoldable pub read_devices : ℕ → List ℕ → Decoded (List ExportedDevice)
read_devices zero buf = ok []
read_devices (suc n) buf = do
  (d, consumed) ← Device.decode buf
  ds ← read_devices n (drop consumed buf)
  ok (d ∷ ds)

-- Read the reply to OP_REQ_DEVLIST: the header, the count, the records.
unfoldable pub read_devlist : List ℕ → Decoded (OpHeader × List ExportedDevice)
unfolding read_devices
read_devlist buf = do
  h ← Header.decode buf
  let n = u32_from_be_bytes (index buf 8) (index buf 9) (index buf 10) (index buf 11)
  ds ← read_devices n (drop 12 buf)
  ok (h, ds)

-- A device that the wire format can carry whole.
abbrev pub IsPortable : UsbDevice → Type 0
IsPortable d = IsExportable (to_exported d) × (length d.interfaces ≤ 255)

abbrev records : List UsbDevice → List ℕ
records [] = []
records (d ∷ ds) = Device.encode (to_exported d) [] ++ records ds

encode-out : (d : ExportedDevice) (out : List ℕ) → Device.encode d out ≡ out ++ Device.encode d []
encode-out d out = encode-append d out ∙ ap (λ t. out ++ t) (sym (encode-append d []))

encode_devices-records :
    (ds : List UsbDevice) (out : List ℕ) → encode_devices ds out ≡ out ++ records ds
unfolding encode_devices
encode_devices-records [] out = sym (append-nil out)
encode_devices-records (d ∷ ds) out =
    encode_devices-records ds _
    ∙ ap (λ t. t ++ records ds) (encode-out (to_exported d) out)
    ∙ append_assoc out _ (records ds)

length-interfaces : (d : UsbDevice) → length (to_exported d).interfaces ≡ length d.interfaces
unfolding to_exported
length-interfaces d = length-map d.interfaces _

announced-to_exported :
    (d : UsbDevice) → length d.interfaces ≤ 255 → announced (to_exported d) ≡ to_exported d
announced-to_exported d few =
    let whole : saturate_u8 (length (to_exported d).interfaces)
        ≡ length (to_exported d).interfaces =
      ground (arith, length-interfaces d) in
    rw (
      whole,
      take-length_le (length (to_exported d).interfaces) (to_exported d).interfaces (omega arith),
    )

read_devices-records :
    (ds : List UsbDevice)
    → All IsPortable ds
    → read_devices (length ds) (records ds) ≡ ok (map to_exported ds)
unfolding read_devices
read_devices-records [] h = refl
read_devices-records (d ∷ ds) h =
    let e = to_exported d in
    let taken : 312 + 4 * saturate_u8 (length e.interfaces) ≡ length (Device.encode e []) =
      ground (arith, length-encode e [], length-interfaces d, h.0.1) in
    rw (
      decode-encode e (records ds) h.0.0,
      announced-to_exported d h.0.1,
      drop-append (312 + 4 * saturate_u8 (length e.interfaces)) (Device.encode e []) (records ds)
          taken,
      read_devices-records ds h.1,
    )

-- When the wire format can carry every device that is no hub, and there are fewer than 2^32 of
-- them, a client reads from the reply exactly those devices, in order and unchanged.
pub read_devlist-encode_rep_devlist :
    (devices : List UsbDevice)
    → All IsPortable (without_hubs devices)
    → length (without_hubs devices) < 2 ^ 32
    → read_devlist (encode_rep_devlist devices)
      ≡ ok (Header.new op_rep_devlist, map to_exported (without_hubs devices))
unfolding read_devlist encode_rep_devlist Header.encode Header.new Header.decode
read_devlist-encode_rep_devlist devices h few =
    let ds = without_hubs devices in
    let count : saturate_u32 (length ds) ≡ length ds = ground arith in
    rw (encode_devices-records ds _, count, u32_be_round (length ds) few, read_devices-records ds h)
      (ground arith)
