-- ===== src/Tests/Proto.antt =====
-- The wire formats of crates/usbip-proto.
use usbipd_darwin.Common.{
  ℕ, ◌+◌, ◌*◌, ◌≤◌, ◌<◌, List, [], ◌∷◌, ◌++◌, ◌≡◌, ◌⊎◌, arith, ok, err, length, pos, negsuc,
  replicate,
}
use usbipd_darwin.Proto.Error.{short_read}
use usbipd_darwin.Proto.Op.Header
use usbipd_darwin.Proto.Op.Header.{OpHeader, op_req_import}
use usbipd_darwin.Proto.Op.Device
use usbipd_darwin.Proto.Op.Device.{
  ExportedDevice, ExportedInterface, write_fixed_str, decode_req_import_busid, encode_rep_import_ok,
  encode_rep_import_err, saturate_u8,
}
use usbipd_darwin.Proto.Op.RoundTrip.{
  IsExportable, announced, decode-encode, decode-encode_overflow,
}
use usbipd_darwin.Proto.Op.Reads.{decode_cases, record_at, needed}
use usbipd_darwin.Proto.Urb.Replies.{RetSubmit}
use usbipd_darwin.Tests.Samples.{
  stick, stick_path-FitsIn, stick_busid-FitsIn, stick-IsExportable, many_interfaces,
}

abbrev request : OpHeader
request = Header.new op_req_import

decode-encode_example :
    Device.decode (Device.encode stick [] ++ (7 ∷ []))
    ≡ ok (announced stick, 312 + 4 * saturate_u8 (length stick.interfaces))
decode-encode_example = decode-encode stick (7 ∷ []) stick-IsExportable

many_interfaces-IsExportable : IsExportable (many_interfaces 300)
many_interfaces-IsExportable = record {
  path = stick_path-FitsIn;
  busid = stick_busid-FitsIn;
  busnum = omega arith;
  devnum = omega arith;
  speed = omega arith;
  id_vendor = omega arith;
  id_product = omega arith;
  bcd_device = omega arith;
}

decode-encode_overflow_example :
    (consumed : ℕ) × (Device.decode (Device.encode (many_interfaces 300) [] ++ [])
      ≡ ok (announced (many_interfaces 300), consumed))
    × (consumed < length (Device.encode (many_interfaces 300) []))
decode-encode_overflow_example =
    decode-encode_overflow (many_interfaces 300) [] many_interfaces-IsExportable (omega arith)

abbrev short_wire : List ℕ
short_wire = 1 ∷ 17 ∷ []

abbrev wire : List ℕ
wire = Device.encode stick []

decode_cases_example :
    ((length wire < 312) × (Device.decode wire ≡ err (short_read 312 (length wire))))
    ⊎ ((312 ≤ length wire)
        × (length wire < needed wire)
        × (Device.decode wire ≡ err (short_read (needed wire) (length wire))))
    ⊎ ((needed wire ≤ length wire) × (Device.decode wire ≡ ok (record_at wire, needed wire)))
decode_cases_example = decode_cases wire

abbrev header_wire : List ℕ
header_wire = replicate 20 1

abbrev stalled : RetSubmit
stalled = record {
  status = negsuc 31;
  actual_length = pos 0;
  start_frame = pos 0;
  number_of_packets = pos 0;
  error_count = pos 0;
  padding = replicate 8 0;
}

abbrev payload : List ℕ
payload = 4 ∷ []
