-- ===== src/Host/Ids.antt =====
-- The bus and device numbers of crates/host-mac/src/lib.rs. Text is its bytes.
use usbipd_darwin.Common.{
  ℕ, ◌+◌, ◌-◌, ◌*◌, ◌/◌, ◌%◌, ◌^◌, ◌≤◌, ◌<◌, min, max, List, [], ◌∷◌, Option, none, some, ◌≡◌, refl,
  ap₂, ◌∙◌, arith, bit_and, bit_or, bit_xor, ◌&&◌, leb, ltb, nat_beq, if◌then◌else◌,
}
use usbipd_darwin.Common.Bits.{bit_xor-lt, bit_or-fields, bit_and-mask}
use usbipd_darwin.Host.Nusb.{DeviceInfo}

abbrev fnv_offset_basis : ℕ
fnv_offset_basis = 0x811c_9dc5

-- `h.wrapping_mul(0x0100_0193) ^ u32::from(b)`
unfoldable pub hash_step : ℕ → ℕ → ℕ
hash_step h b = bit_xor (h * 0x0100_0193 % 2 ^ 32) b

unfoldable pub hash_bytes : ℕ → List ℕ → ℕ
hash_bytes h [] = h
hash_bytes h (b ∷ bs) = hash_bytes (hash_step h b) bs

-- `h.to_le_bytes()` and the exclusive or of the four bytes
unfoldable pub fold_to_u8 : ℕ → ℕ
fold_to_u8 h =
    bit_xor (bit_xor (bit_xor (h % 256) (h / 2 ^ 8 % 256)) (h / 2 ^ 16 % 256)) (h / 2 ^ 24 % 256)

-- `str::parse::<u32>`: an optional `+`, then digits, with an overflow check at each digit.
parse_digits : ℕ → List ℕ → Option ℕ
parse_digits n [] = some n
parse_digits n (c ∷ cs) =
    let n' = n * 10 + (c - b'0') in
    let rest = parse_digits n' cs in
    if leb b'0' c && leb c b'9' && ltb n' (2 ^ 32) then rest else none

unfoldable pub parse_u32 : List ℕ → Option ℕ
unfolding parse_digits
parse_u32 [] = none
parse_u32 (c ∷ []) = if nat_beq c b'+' then none else parse_digits 0 (c ∷ [])
parse_u32 (c ∷ d ∷ cs) =
    if nat_beq c b'+' then parse_digits 0 (d ∷ cs) else parse_digits 0 (c ∷ d ∷ cs)

-- `n.clamp(1, 0xFF)`, or the hash of an id that is no number
unfoldable pub parse_bus_id : List ℕ → ℕ
parse_bus_id bus_id = elim (parse_u32 bus_id) as (λ _. ℕ) [
  | some n ↦ min (max n 1) 0xff
  | none ↦ max (fold_to_u8 (hash_bytes fnv_offset_basis bus_id)) 1
]

unfoldable pub derive_bus_dev_inner : List ℕ → List ℕ → ℕ → ℕ × ℕ
derive_bus_dev_inner bus_id port_chain device_address =
    let bus_token = parse_bus_id bus_id in
    let h = hash_step (hash_bytes fnv_offset_basis port_chain) device_address in
    (bus_token, max (fold_to_u8 h) 1)

unfoldable pub derive_bus_dev : DeviceInfo → ℕ × ℕ
derive_bus_dev i = derive_bus_dev_inner i.bus_id i.port_chain i.device_address

-- `(busnum << 16) | devnum` on `u32`
unfoldable pub pack_devid : ℕ → ℕ → ℕ
pack_devid busnum devnum = bit_or (busnum * 2 ^ 16 % 2 ^ 32) devnum

fold_to_u8-lt : (h : ℕ) → fold_to_u8 h < 256
unfolding fold_to_u8
fold_to_u8-lt h =
    bit_xor-lt 8 _ _ (bit_xor-lt 8 _ _ (bit_xor-lt 8 _ _ (omega arith) (omega arith)) (omega arith))
      (omega arith)

abbrev IsToken : ℕ → Type 0
IsToken n = (1 ≤ n) × (n ≤ 255)

parse_bus_id-IsToken : (bus_id : List ℕ) → IsToken (parse_bus_id bus_id)
unfolding parse_bus_id
parse_bus_id-IsToken bus_id = ground (arith, fold_to_u8-lt (hash_bytes fnv_offset_basis bus_id))

-- Both numbers of every device are at least 1 and fit a byte.
pub derive_bus_dev_bounds :
    (bus_id port_chain : List ℕ) (device_address : ℕ)
    → IsToken (derive_bus_dev_inner bus_id port_chain device_address).0
      × IsToken (derive_bus_dev_inner bus_id port_chain device_address).1
unfolding derive_bus_dev_inner
derive_bus_dev_bounds bus_id port_chain device_address = (
  parse_bus_id-IsToken bus_id,
  omega (arith, fold_to_u8-lt (hash_step (hash_bytes fnv_offset_basis port_chain) device_address)),
)

-- For numbers of 16 bits, the devid that the URB headers carry holds them side by side, and both
-- are taken out of it again.
pub pack_devid_lem :
    (busnum devnum : ℕ)
    → busnum < 2 ^ 16
    → devnum < 2 ^ 16
    → (pack_devid busnum devnum ≡ busnum * 2 ^ 16 + devnum)
      × (pack_devid busnum devnum / 2 ^ 16 ≡ busnum)
      × (bit_and (pack_devid busnum devnum) 0xffff ≡ devnum)
unfolding pack_devid
pack_devid_lem busnum devnum hb hd =
    let fits : busnum * 2 ^ 16 % 2 ^ 32 ≡ busnum * 2 ^ 16 = omega arith in
    let sum = bit_or-fields 16 busnum devnum hd in
    rw (fits, sum) (refl, omega arith, bit_and-mask 16 (busnum * 2 ^ 16 + devnum) ∙ omega arith)

-- For every device, a client that stores both numbers in a byte sends the devid that the server
-- expects.
pub devid_survives_u8 :
    (i : DeviceInfo)
    → let (busnum, devnum) = derive_bus_dev i in
      pack_devid (bit_and busnum 0xff) (bit_and devnum 0xff) ≡ pack_devid busnum devnum
unfolding derive_bus_dev
devid_survives_u8 i =
    let (busnum, devnum) = derive_bus_dev_inner i.bus_id i.port_chain i.device_address in
    let (hb, hd) = derive_bus_dev_bounds i.bus_id i.port_chain i.device_address in
    let keep_b : bit_and busnum 0xff ≡ busnum = omega (arith, bit_and-mask 8 busnum) in
    let keep_d : bit_and devnum 0xff ≡ devnum = omega (arith, bit_and-mask 8 devnum) in
    ap₂ pack_devid keep_b keep_d
