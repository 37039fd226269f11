-- ===== src/Proto/Op/Device.antt =====
-- The device records of crates/usbip-proto/src/op.rs, and the import request and replies.
use usbipd_darwin.Common.{
  ℕ, zero, suc, ◌+◌, ◌-◌, ◌*◌, min, List, [], ◌∷◌, ◌++◌, Option, none, some, unwrap_or, ok, err,
  ◌>>=◌, length, take, replicate, slice, ltb, nat_beq, if◌then◌else◌,
}
use usbipd_darwin.Common.Words.{
  index, u16_to_be_bytes, u32_to_be_bytes, u16_from_be_bytes, u32_from_be_bytes,
}
use usbipd_darwin.Common.Utf8.{from_utf8_lossy}
use usbipd_darwin.Proto.Error.{short_read, Decoded}
use usbipd_darwin.Proto.Op.Header
use usbipd_darwin.Proto.Op.Header.{OpHeader, usbip_version, op_rep_import}

pub record ExportedInterface : Type 0 where
  pub class : ℕ
  pub subclass : ℕ
  pub protocol : ℕ

abbrev pub interface_size : ℕ
interface_size = 4

unfoldable pub encode_interface : ExportedInterface → List ℕ → List ℕ
encode_interface i out = out ++ (i.class ∷ i.subclass ∷ i.protocol ∷ 0 ∷ [])

unfoldable pub decode_interface : List ℕ → Decoded ExportedInterface
decode_interface buf =
    if ltb (length buf) interface_size
    then err (short_read interface_size (length buf))
    else ok (record { class = index buf 0; subclass = index buf 1; protocol = index buf 2 })

-- Strings are their bytes.
pub record ExportedDevice : Type 0 where
  pub path : List ℕ
  pub busid : List ℕ
  pub busnum : ℕ
  pub devnum : ℕ
  pub speed : ℕ
  pub id_vendor : ℕ
  pub id_product : ℕ
  pub bcd_device : ℕ
  pub b_device_class : ℕ
  pub b_device_subclass : ℕ
  pub b_device_protocol : ℕ
  pub b_configuration_value : ℕ
  pub b_num_configurations : ℕ
  pub interfaces : List ExportedInterface

-- 256 + 32 + 4 + 4 + 4 + 2 + 2 + 2 + 1 + 1 + 1 + 1 + 1 + 1
abbrev pub header_size : ℕ
header_size = 312

unfoldable pub write_fixed_str : List ℕ → List ℕ → ℕ → List ℕ
write_fixed_str out s width =
    let n = min (length s) width in out ++ (take n s ++ replicate (width - n) 0)

-- `iter().position(|&b| b == 0)`
unfoldable pub position_zero : List ℕ → Option ℕ
position_zero [] = none
position_zero (b ∷ bs) =
    let rest = position_zero bs in
    if nat_beq b 0 then some 0 else elim rest [ none ↦ none | some i ↦ some (suc i) ]

unfoldable pub read_fixed_str : List ℕ → List ℕ
read_fixed_str buf = from_utf8_lossy (take (unwrap_or (position_zero buf) (length buf)) buf)

-- The readers return the value and the offset behind it.
unfoldable pub read_u16 : List ℕ → ℕ → ℕ × ℕ
read_u16 buf o = (u16_from_be_bytes (index buf o) (index buf (o + 1)), o + 2)

unfoldable pub read_u32 : List ℕ → ℕ → ℕ × ℕ
read_u32 buf o = (
  u32_from_be_bytes (index buf o) (index buf (o + 1)) (index buf (o + 2)) (index buf (o + 3)),
  o + 4,
)

-- `u8::try_from(n).unwrap_or(u8::MAX)`
abbrev pub saturate_u8 : ℕ → ℕ
saturate_u8 n = if ltb n 256 then n else 255

-- The integer fields and the count of interfaces, which both encoders write.
unfoldable pub encode_numbers : ExportedDevice → List ℕ → List ℕ
encode_numbers d out =
    out
    ++ (u32_to_be_bytes d.busnum
        ++ (u32_to_be_bytes d.devnum
            ++ (u32_to_be_bytes d.speed
                ++ (u16_to_be_bytes d.id_vendor
                    ++ (u16_to_be_bytes d.id_product
                        ++ (u16_to_be_bytes d.bcd_device
                            ++ (d.b_device_class
                                ∷ d.b_device_subclass
                                ∷ d.b_device_protocol
                                ∷ d.b_configuration_value
                                ∷ d.b_num_configurations
                                ∷ saturate_u8 (length d.interfaces)
                                ∷ [])))))))

unfoldable pub encode_header_only : ExportedDevice → List ℕ → List ℕ
encode_header_only d out =
    encode_numbers d (write_fixed_str (write_fixed_str out d.path 256) d.busid 32)

-- `for iface in &self.interfaces`
unfoldable pub encode_interfaces : List ExportedInterface → List ℕ → List ℕ
encode_interfaces [] out = out
encode_interfaces (i ∷ is) out = encode_interfaces is (encode_interface i out)

unfoldable pub encode : ExportedDevice → List ℕ → List ℕ
encode d out =
    encode_interfaces d.interfaces
      (encode_numbers d (write_fixed_str (write_fixed_str out d.path 256) d.busid 32))

-- `for _ in 0..n_ifaces`, with the offset that the loop ends at.
unfoldable pub decode_interfaces : ℕ → List ℕ → ℕ → Decoded (List ExportedInterface × ℕ)
decode_interfaces zero buf o = ok ([], o)
decode_interfaces (suc n) buf o = do
  i ← decode_interface (slice buf o (o + interface_size))
  (is, end) ← decode_interfaces n buf (o + interface_size)
  ok (i ∷ is, end)

unfoldable pub decode : List ℕ → Decoded (ExportedDevice × ℕ)
decode buf =
    if ltb (length buf) header_size
    then err (short_read header_size (length buf))
    else let path = read_fixed_str (slice buf 0 256) in
      let busid = read_fixed_str (slice buf 256 288) in
      let (busnum, o1) = read_u32 buf 288 in
      let (devnum, o2) = read_u32 buf o1 in
      let (speed, o3) = read_u32 buf o2 in
      let (id_vendor, o4) = read_u16 buf o3 in
      let (id_product, o5) = read_u16 buf o4 in
      let (bcd_device, o6) = read_u16 buf o5 in
      let n_ifaces = index buf (o6 + 5) in
      let o = o6 + 6 in
      let need = n_ifaces * interface_size in
      if ltb (length buf) (o + need) then err (short_read (o + need) (length buf)) else do
        (interfaces, end) ← decode_interfaces n_ifaces buf o
        ok (
          record {
            path = path;
            busid = busid;
            busnum = busnum;
            devnum = devnum;
            speed = speed;
            id_vendor = id_vendor;
            id_product = id_product;
            bcd_device = bcd_device;
            b_device_class = index buf o6;
            b_device_subclass = index buf (o6 + 1);
            b_device_protocol = index buf (o6 + 2);
            b_configuration_value = index buf (o6 + 3);
            b_num_configurations = index buf (o6 + 4);
            interfaces = interfaces;
          },
          end,
        )

unfoldable pub decode_req_import_busid : List ℕ → Decoded (List ℕ)
decode_req_import_busid buf =
    if ltb (length buf) 32
    then err (short_read 32 (length buf))
    else ok (read_fixed_str (slice buf 0 32))

unfoldable pub encode_rep_import_ok : List ℕ → ExportedDevice → List ℕ
encode_rep_import_ok out dev = encode_header_only dev (Header.encode (Header.new op_rep_import) out)

unfoldable pub encode_rep_import_err : List ℕ → List ℕ
encode_rep_import_err out =
    Header.encode (record { version = usbip_version; code = op_rep_import; status = 1 }) out
