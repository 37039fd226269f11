-- ===== src/Proto/Op/Reads.antt =====
-- The decoders of the op messages on any buffer, well formed or not.
use usbipd_darwin.Common.{
  get_or, ℕ, zero, suc, ◌+◌, ◌-◌, ◌*◌, ◌≤◌, ◌<◌, List, [], ◌∷◌, ◌≡◌, ◌⊎◌, inl, inr, refl, ap, sym,
  ◌∙◌, length, ok, err, le→ltb, lt→ltb, take, drop, slice, arith, length-take, length-drop,
}
use native.Mathlib.Decide.{dec_lt}
use usbipd_darwin.Common.Words.{IsBytes, index, u16_from_be_bytes, u32_from_be_bytes}
use usbipd_darwin.Proto.Error.{short_read}
use usbipd_darwin.Proto.Op.Header
use usbipd_darwin.Proto.Op.Header.{OpHeader}
use usbipd_darwin.Proto.Op.Device.{
  ExportedInterface, ExportedDevice, decode_interface, read_fixed_str, read_u16, read_u32,
  decode_interfaces, decode,
}

decode_header_short :
    (buf : List ℕ) → length buf < 8 → Header.decode buf ≡ err (short_read 8 (length buf))
unfolding Header.decode
decode_header_short buf h = rw (lt→ltb (length buf) 8 h)

-- Any eight bytes are a header that encodes to them.
decode_header_long :
    (buf : List ℕ)
    → IsBytes buf
    → 8 ≤ length buf
    → (h : OpHeader) × (Header.decode buf ≡ ok h) × (Header.encode h [] ≡ take 8 buf)
unfolding Header.decode Header.encode
decode_header_long [] bs long = absurd (omega arith)
decode_header_long (a ∷ b ∷ c ∷ d ∷ e ∷ f ∷ g ∷ h ∷ rest) bs long = (
  record {
    version = u16_from_be_bytes a b;
    code = u16_from_be_bytes c d;
    status = u32_from_be_bytes e f g h;
  },
  rw (le→ltb (length (a ∷ b ∷ c ∷ d ∷ e ∷ f ∷ g ∷ h ∷ rest)) 8 (omega arith)),
  ground arith,
)
decode_header_long _ bs long = absurd (omega arith)

-- A buffer of fewer than eight bytes is refused with its length; the first eight bytes of any
-- other are an op header, and encoding that header gives them back.
pub op_header_decode_cases :
    (buf : List ℕ)
    → IsBytes buf
    → ((length buf < 8) × (Header.decode buf ≡ err (short_read 8 (length buf))))
      ⊎ ((8 ≤ length buf)
          × ((h : OpHeader) × (Header.decode buf ≡ ok h) × (Header.encode h [] ≡ take 8 buf)))
op_header_decode_cases buf bs = elim (dec_lt (length buf) 8) [
  | yes short ↦ inl (short, decode_header_short buf short)
  | no long ↦ inr (omega arith, decode_header_long buf bs (omega arith))
]

-- The bytes that a record needs, by its count byte.
abbrev pub needed : List ℕ → ℕ
needed buf = 312 + 4 * index buf 311

get_or-drop : (o i k : ℕ) (xs : List ℕ) → k ≡ o + i → get_or (drop o xs) i 0 ≡ get_or xs k 0
get_or-drop zero i k xs h = ap (λ t. get_or xs t 0) (omega arith)
get_or-drop (suc o) i k [] h = refl
get_or-drop (suc o) i zero (x ∷ xs) h = absurd (omega arith)
get_or-drop (suc o) i (suc k) (x ∷ xs) h = get_or-drop o i k xs (omega arith)

get_or-take : (n i : ℕ) (xs : List ℕ) → i < n → get_or (take n xs) i 0 ≡ get_or xs i 0
get_or-take zero i xs h = absurd (omega arith)
get_or-take (suc n) i [] h = refl
get_or-take (suc n) zero (x ∷ xs) h = refl
get_or-take (suc n) (suc i) (x ∷ xs) h = get_or-take n i xs (omega arith)

index-slice : (buf : List ℕ) (o i : ℕ) → i < 4 → index (slice buf o (o + 4)) i ≡ index buf (o + i)
index-slice buf o i h =
    get_or-take (o + 4 - o) i (drop o buf) (omega arith) ∙ get_or-drop o i (o + i) buf refl

-- The interfaces of the wire layout, four bytes apart, the last of them padding.
unfoldable pub interfaces_at : ℕ → List ℕ → ℕ → List ExportedInterface
interfaces_at zero buf o = []
interfaces_at (suc n) buf o =
    record { class = index buf o; subclass = index buf (o + 1); protocol = index buf (o + 2) }
    ∷ interfaces_at n buf (o + 4)

interface_at-slice :
    (buf : List ℕ) (o : ℕ) (i : ExportedInterface)
    → i.class ≡ index (slice buf o (o + 4)) 0
    → i.subclass ≡ index (slice buf o (o + 4)) 1
    → i.protocol ≡ index (slice buf o (o + 4)) 2
    → i ≡ record { class = index buf o; subclass = index buf (o + 1); protocol = index buf (o + 2) }
interface_at-slice buf o i a b c =
    let plain : o + 0 ≡ o = omega arith in
    ground (
      arith,
      a ∙ index-slice buf o 0 (omega arith) ∙ ap (index buf) plain,
      b ∙ index-slice buf o 1 (omega arith),
      c ∙ index-slice buf o 2 (omega arith),
    )

-- The loop over the interfaces finds every slice long enough.
decode_interfaces_total :
    (n : ℕ) (buf : List ℕ) (o : ℕ)
    → o + 4 * n ≤ length buf
    → decode_interfaces n buf o ≡ ok (interfaces_at n buf o, o + 4 * n)
unfolding decode_interfaces decode_interface interfaces_at
decode_interfaces_total zero buf o h = ap (λ t. ok ([], t)) (omega arith)
decode_interfaces_total (suc n) buf o h =
    let is = interfaces_at n buf (o + 4) in
    let bytes = slice buf o (o + 4) in
    let size : length bytes ≡ 4 =
      omega (arith, length-take (o + 4 - o) (drop o buf), length-drop o buf) in
    let i : ExportedInterface = record {
      class = index bytes 0;
      subclass = index bytes 1;
      protocol = index bytes 2;
    } in
    rw
      (
        le→ltb (length bytes) 4 (omega arith),
        decode_interfaces_total n buf (o + 4) (omega arith),
        sym (interface_at-slice buf o i refl refl refl),
      )
      (ap (λ t. ok (i ∷ is, t)) (omega arith))

-- The record at the offsets of the wire layout.
abbrev pub record_at : List ℕ → ExportedDevice
record_at buf = record {
  path = read_fixed_str (slice buf 0 256);
  busid = read_fixed_str (slice buf 256 288);
  busnum = u32_from_be_bytes (index buf 288) (index buf 289) (index buf 290) (index buf 291);
  devnum = u32_from_be_bytes (index buf 292) (index buf 293) (index buf 294) (index buf 295);
  speed = u32_from_be_bytes (index buf 296) (index buf 297) (index buf 298) (index buf 299);
  id_vendor = u16_from_be_bytes (index buf 300) (index buf 301);
  id_product = u16_from_be_bytes (index buf 302) (index buf 303);
  bcd_device = u16_from_be_bytes (index buf 304) (index buf 305);
  b_device_class = index buf 306;
  b_device_subclass = index buf 307;
  b_device_protocol = index buf 308;
  b_configuration_value = index buf 309;
  b_num_configurations = index buf 310;
  interfaces = interfaces_at (index buf 311) buf 312;
}

module _ (buf : List ℕ) where
  decode_short : length buf < 312 → decode buf ≡ err (short_read 312 (length buf))
  unfolding decode
  decode_short h = rw (lt→ltb (length buf) 312 h)

  decode_cut :
      312 ≤ length buf
      → length buf < needed buf
      → decode buf ≡ err (short_read (needed buf) (length buf))
  unfolding decode read_u16 read_u32
  decode_cut h cut =
      rw (le→ltb (length buf) 312 h, lt→ltb (length buf) (312 + index buf 311 * 4) (omega arith))
        (ap (λ n. err (short_read n (length buf))) (omega arith))

  decode_whole : needed buf ≤ length buf → decode buf ≡ ok (record_at buf, needed buf)
  unfolding decode read_u16 read_u32
  decode_whole h =
      rw
        (
          le→ltb (length buf) 312 (omega arith),
          le→ltb (length buf) (312 + index buf 311 * 4) (omega arith),
          decode_interfaces_total (index buf 311) buf 312 h,
        )
        refl

-- On any buffer the device decoder either refuses it as too short, saying how many bytes it needs, or
-- takes exactly the bytes that the count byte announces, all of them inside the buffer, and reads each
-- field at its offset of the wire layout, those of each interface among them.
pub decode_cases :
    (buf : List ℕ)
    → ((length buf < 312) × (decode buf ≡ err (short_read 312 (length buf))))
      ⊎ ((312 ≤ length buf)
          × (length buf < needed buf)
          × (decode buf ≡ err (short_read (needed buf) (length buf))))
      ⊎ ((needed buf ≤ length buf) × (decode buf ≡ ok (record_at buf, needed buf)))
decode_cases buf = elim (dec_lt (length buf) 312) [
  | yes short ↦ inl (short, decode_short buf short)
  | no long ↦ inr (elim (dec_lt (length buf) (needed buf)) [
    | yes cut ↦ inl (omega arith, cut, decode_cut buf (omega arith) cut)
    | no whole ↦ inr (omega arith, decode_whole buf (omega arith))
  ])
]
