-- ===== src/Proto/Op/RoundTrip.antt =====
-- Decoding what was encoded, for the op messages.
use usbipd_darwin.Proto.Op.Texts.{FitsIn, read_fixed_str-fixed_str}
use usbipd_darwin.Common.{
  ℕ, zero, suc, ◌+◌, ◌-◌, ◌*◌, ◌≤◌, ◌<◌, List, [], ◌∷◌, ◌++◌, ◌≡◌, refl, ap, sym, ◌∙◌, length, ok,
  le→ltb, take, slice, arith, append_assoc, length-append, take-append, drop-append, get_or-append,
}
use usbipd_darwin.Common.Words.{IsU16, IsU32, index, u16_be_round, u32_be_round}
use usbipd_darwin.Proto.Op.Header
use usbipd_darwin.Proto.Op.Header.{OpHeader, IsOpHeader}
use usbipd_darwin.Proto.Op.Device.{
  ExportedInterface, ExportedDevice, encode_interface, decode_interface, read_fixed_str, read_u16,
  read_u32, saturate_u8, decode_interfaces, encode, decode,
}
use usbipd_darwin.Proto.Op.Layout.{
  fixed_str, numbers, interface_bytes, length-fixed_str, encode-append, length-encode,
}

-- An op header with fields of their widths comes back from its eight bytes, whatever follows
-- them.
pub decode-encode_header :
    (h : OpHeader) (rest : List ℕ)
    → IsOpHeader h
    → Header.decode (Header.encode h [] ++ rest) ≡ ok h
unfolding Header.decode Header.encode
decode-encode_header h rest v =
    ground (arith, u16_be_round h.version, u16_be_round h.code, u32_be_round h.status)

-- An interface record comes back from its four bytes; the padding byte is dropped.
pub decode-encode_interface :
    (i : ExportedInterface) (rest : List ℕ)
    → decode_interface (encode_interface i [] ++ rest) ≡ ok i
unfolding decode_interface encode_interface
decode-encode_interface i rest = ground arith

index-append : (pre suf : List ℕ) (k : ℕ) → index (pre ++ suf) (length pre + k) ≡ index suf k
index-append pre suf k = get_or-append (length pre + k) k pre suf 0 refl

-- The loop over the interfaces reads as many records as it is asked for.
decode_interfaces-bytes :
    (n : ℕ) (is : List ExportedInterface) (front rest : List ℕ) (o : ℕ)
    → n ≤ length is
    → o ≡ length front
    → decode_interfaces n (front ++ (interface_bytes is ++ rest)) o ≡ ok (take n is, o + 4 * n)
unfolding decode_interfaces decode_interface
decode_interfaces-bytes zero is front rest o hn ho = ap (λ t. ok ([], t)) (omega arith)
decode_interfaces-bytes (suc n) [] front rest o hn ho = absurd (omega arith)
decode_interfaces-bytes (suc n) (i ∷ is) front rest o hn ho =
    let record_bytes : List ℕ = i.class ∷ i.subclass ∷ i.protocol ∷ 0 ∷ [] in
    let later : List ℕ = interface_bytes is ++ rest in
    let width : o + 4 - o ≡ 4 = omega arith in
    let ih =
      decode_interfaces-bytes n is (front ++ record_bytes) rest (o + 4) (omega arith)
        (rw length-append (omega arith)) in
    let here = drop-append o front (record_bytes ++ later) ho in
    rw (here, width, ← append_assoc front record_bytes later, ih)
      (ap (λ t. ok (i ∷ take n is, t)) (omega arith))

-- What the fixed-width fields of a record can carry.
pub record IsExportable (d : ExportedDevice) : Type 0 where
  pub path : FitsIn 256 d.path
  pub busid : FitsIn 32 d.busid
  pub busnum : IsU32 d.busnum
  pub devnum : IsU32 d.devnum
  pub speed : IsU32 d.speed
  pub id_vendor : IsU16 d.id_vendor
  pub id_product : IsU16 d.id_product
  pub bcd_device : IsU16 d.bcd_device

-- The device that a decoder finds: at most 255 interfaces are announced.
abbrev pub announced : ExportedDevice → ExportedDevice
announced d = record d { interfaces = take (saturate_u8 (length d.interfaces)) d.interfaces }

-- Decoding where the parts of a record are known.
decode_at :
    (d : ExportedDevice) (buf rest : List ℕ)
    → 312 + 4 * saturate_u8 (length d.interfaces) ≤ length buf
    → read_fixed_str (slice buf 0 256) ≡ d.path
    → read_fixed_str (slice buf 256 288) ≡ d.busid
    → ((k : ℕ) → index buf (288 + k) ≡ index (numbers d ++ rest) k)
    → decode_interfaces (saturate_u8 (length d.interfaces)) buf 312
      ≡ ok ((announced d).interfaces, 312 + 4 * saturate_u8 (length d.interfaces))
    → IsExportable d
    → decode buf ≡ ok (announced d, 312 + 4 * saturate_u8 (length d.interfaces))
unfolding decode read_u16 read_u32
decode_at d buf rest long hp hb at ifs v = rw (
  le→ltb (length buf) 312 (omega arith),
  hp,
  hb,
  at 23,
  ifs,
  le→ltb (length buf) (312 + saturate_u8 (length d.interfaces) * 4) (omega arith),
  at 0,
  at 1,
  at 2,
  at 3,
  at 4,
  at 5,
  at 6,
  at 7,
  at 8,
  at 9,
  at 10,
  at 11,
  at 12,
  at 13,
  at 14,
  at 15,
  at 16,
  at 17,
  at 18,
  at 19,
  at 20,
  at 21,
  at 22,
  u32_be_round d.busnum v.busnum,
  u32_be_round d.devnum v.devnum,
  u32_be_round d.speed v.speed,
  u16_be_round d.id_vendor v.id_vendor,
  u16_be_round d.id_product v.id_product,
  u16_be_round d.bcd_device v.bcd_device,
)

module _ (d : ExportedDevice) (rest : List ℕ) where
  front : List ℕ
  front = fixed_str d.path 256 ++ fixed_str d.busid 32

  behind : List ℕ
  behind = interface_bytes d.interfaces ++ rest

  count : ℕ
  count = saturate_u8 (length d.interfaces)

  length-front : length front ≡ 288
  unfolding front
  length-front =
      rw length-append (omega (arith, length-fixed_str d.path 256, length-fixed_str d.busid 32))

  shape :
      encode d [] ++ rest ≡ fixed_str d.path 256 ++ (fixed_str d.busid 32 ++ (numbers d ++ behind))
  unfolding behind
  shape = rw encode-append (simp append_assoc)

  shape_front : encode d [] ++ rest ≡ front ++ (numbers d ++ behind)
  unfolding front
  shape_front = shape ∙ sym (append_assoc (fixed_str d.path 256) (fixed_str d.busid 32) _)

  path_of : FitsIn 256 d.path → read_fixed_str (slice (encode d [] ++ rest) 0 256) ≡ d.path
  path_of f =
      rw (shape, take-append 256 (fixed_str d.path 256) _ (sym (length-fixed_str d.path 256)))
        (read_fixed_str-fixed_str 256 d.path f)

  busid_of : FitsIn 32 d.busid → read_fixed_str (slice (encode d [] ++ rest) 256 288) ≡ d.busid
  busid_of f =
      rw
        (
          shape,
          drop-append 256 (fixed_str d.path 256) _ (sym (length-fixed_str d.path 256)),
          take-append 32 (fixed_str d.busid 32) _ (sym (length-fixed_str d.busid 32)),
        )
        (read_fixed_str-fixed_str 32 d.busid f)

  numbers_of : (k : ℕ) → index (encode d [] ++ rest) (288 + k) ≡ index (numbers d ++ behind) k
  numbers_of k = rw shape_front (get_or-append (288 + k) k front _ 0 (omega (arith, length-front)))

  interfaces_of :
      decode_interfaces count (encode d [] ++ rest) 312
      ≡ ok (take count d.interfaces, 312 + 4 * count)
  unfolding count behind
  interfaces_of =
      rw (shape_front, ← append_assoc front (numbers d) _)
        (decode_interfaces-bytes count d.interfaces (front ++ numbers d) rest 312 (ground arith)
          (rw length-append (omega (arith, length-front))))

  long_enough : 312 + 4 * count ≤ length (encode d [] ++ rest)
  unfolding count
  long_enough = rw length-append (ground (arith, length-encode d []))

-- A device record that the fixed-width fields can carry comes back from its bytes, whatever
-- follows them, with the count of bytes that it takes: all of it when it has at most 255
-- interfaces, and otherwise with the first 255 of these.
pub decode-encode :
    (d : ExportedDevice) (rest : List ℕ)
    → IsExportable d
    → decode (encode d [] ++ rest) ≡ ok (announced d, 312 + 4 * saturate_u8 (length d.interfaces))
unfolding count
decode-encode d rest v =
    decode_at d (encode d [] ++ rest) (behind d rest) (long_enough d rest) (path_of d rest v.path)
      (busid_of d rest v.busid) (numbers_of d rest) (interfaces_of d rest) v

-- With more than 255 interfaces the decoder of such a record stops before the end of its bytes:
-- the count byte says 255, while the encoder writes every interface.
pub decode-encode_overflow :
    (d : ExportedDevice) (rest : List ℕ)
    → IsExportable d
    → 255 < length d.interfaces
    → (consumed : ℕ) × (decode (encode d [] ++ rest) ≡ ok (announced d, consumed))
      × (consumed < length (encode d []))
decode-encode_overflow d rest v many = (
  312 + 4 * saturate_u8 (length d.interfaces),
  decode-encode d rest v,
  ground (arith, length-encode d []),
)
