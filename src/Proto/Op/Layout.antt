-- ===== src/Proto/Op/Layout.antt =====
-- Where the encoders of the op messages put their bytes, and how many they write.
use usbipd_darwin.Common.{
  ℕ, ◌+◌, ◌-◌, ◌*◌, min, List, [], ◌∷◌, ◌++◌, ◌≡◌, refl, sym, ◌∙◌, length, take, replicate, arith,
  append_assoc, append-nil, length-append, length-take, length-replicate,
}
use usbipd_darwin.Common.Words.{u16_to_be_bytes, u32_to_be_bytes}
use usbipd_darwin.Proto.Op.Header
use usbipd_darwin.Proto.Op.Header.{OpHeader}
use usbipd_darwin.Proto.Op.Device.{
  ExportedInterface, ExportedDevice, encode_interface, write_fixed_str, saturate_u8, encode_numbers,
  encode_header_only, encode_interfaces, encode, encode_rep_import_ok, encode_rep_import_err,
}

-- The bytes of each part, with no buffer in front.
unfoldable pub fixed_str : List ℕ → ℕ → List ℕ
fixed_str s width = let n = min (length s) width in take n s ++ replicate (width - n) 0

abbrev pub numbers : ExportedDevice → List ℕ
numbers d =
    u32_to_be_bytes d.busnum
    ++ (u32_to_be_bytes d.devnum
        ++ (u32_to_be_bytes d.speed
            ++ (u16_to_be_bytes d.id_vendor
                ++ (u16_to_be_bytes d.id_product
                    ++ (u16_to_be_bytes d.bcd_device
                        ++ (d.b_device_class
                            ∷ d.b_device_subclass
                            ∷ d.b_device_protocol
                            ∷ d.b_configuration_value
                            ∷ d.b_num_configurations
                            ∷ saturate_u8 (length d.interfaces)
                            ∷ []))))))

abbrev pub interface_bytes : List ExportedInterface → List ℕ
interface_bytes [] = []
interface_bytes (i ∷ is) = i.class ∷ i.subclass ∷ i.protocol ∷ 0 ∷ interface_bytes is

pub length-fixed_str : (s : List ℕ) (width : ℕ) → length (fixed_str s width) ≡ width
unfolding fixed_str
length-fixed_str s width = rw length-append (
    omega (
      arith,
      length-take (min (length s) width) s,
      length-replicate {A = ℕ} (width - min (length s) width) 0,
    ))

pub write_fixed_str-append :
    (out s : List ℕ) (width : ℕ) → write_fixed_str out s width ≡ out ++ fixed_str s width
unfolding write_fixed_str fixed_str
write_fixed_str-append out s width = refl

-- The record header: 256 bytes of path, 32 of busid, 24 of numbers.
pub encode_header_only-append :
    (d : ExportedDevice) (out : List ℕ)
    → encode_header_only d out
      ≡ out ++ (fixed_str d.path 256 ++ (fixed_str d.busid 32 ++ numbers d))
unfolding encode_header_only encode_numbers write_fixed_str fixed_str
encode_header_only-append d out = simp append_assoc

encode_interfaces-append :
    (is : List ExportedInterface) (out : List ℕ)
    → encode_interfaces is out ≡ out ++ interface_bytes is
unfolding encode_interfaces encode_interface
encode_interfaces-append [] out = sym (append-nil out)
encode_interfaces-append (i ∷ is) out =
    encode_interfaces-append is _ ∙ append_assoc out _ (interface_bytes is)

pub encode-append :
    (d : ExportedDevice) (out : List ℕ)
    → encode d out
      ≡ out
        ++ (fixed_str d.path 256
            ++ (fixed_str d.busid 32 ++ (numbers d ++ interface_bytes d.interfaces)))
unfolding encode encode_numbers write_fixed_str fixed_str
encode-append d out = rw encode_interfaces-append (simp append_assoc)

pub length-interface_bytes :
    (is : List ExportedInterface) → length (interface_bytes is) ≡ 4 * length is
length-interface_bytes [] = refl
length-interface_bytes (i ∷ is) = omega (arith, length-interface_bytes is)

-- The import reply omits the interfaces: every device record in it has 312 bytes.
pub length-encode_header_only :
    (d : ExportedDevice) (out : List ℕ) → length (encode_header_only d out) ≡ length out + 312
length-encode_header_only d out =
    rw encode_header_only-append
      (simp length-append (omega (arith, length-fixed_str d.path 256, length-fixed_str d.busid 32)))

pub length-encode :
    (d : ExportedDevice) (out : List ℕ)
    → length (encode d out) ≡ length out + 312 + 4 * length d.interfaces
length-encode d out = rw encode-append (
    simp length-append (
      omega (
        arith,
        length-fixed_str d.path 256,
        length-fixed_str d.busid 32,
        length-interface_bytes d.interfaces,
      )))

length-encode_header : (h : OpHeader) (out : List ℕ) → length (Header.encode h out) ≡ length out + 8
unfolding Header.encode
length-encode_header h out = rw length-append refl

-- The reply to an import that succeeds has 320 bytes whatever the device, the one to an import that
-- fails has 8.
pub length-encode_rep_import :
    (d : ExportedDevice)
    → (length (encode_rep_import_ok [] d) ≡ 320) × (length (encode_rep_import_err []) ≡ 8)
unfolding encode_rep_import_ok encode_rep_import_err
length-encode_rep_import d = (
  omega (
    arith,
    length-encode_header_only d (Header.encode (Header.new Header.op_rep_import) []),
    length-encode_header (Header.new Header.op_rep_import) [],
  ),
  length-encode_header _ [],
)
