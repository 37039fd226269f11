-- ===== src/Host/Setup.antt =====
-- The USB SETUP packet of crates/host-mac/src/lib.rs, little-endian on the wire.
use usbipd_darwin.Common.{
  ℕ, ◌/◌, ◌%◌, ◌^◌, ◌<◌, List, ◌≡◌, Bool, true, false, ◌&&◌, not, arith, bit_and, ◌==◌, nat_eq,
  if◌then◌else◌, ◌↔◌,
}
use usbipd_darwin.Common.Words.{IsU8, index, u16_from_le_bytes}
use usbipd_darwin.Common.Bits.{bit_and-mask, bit_and-top}

pub record SetupPacket : Type 0 where
  pub bm_request_type : ℕ
  pub b_request : ℕ
  pub w_value : ℕ
  pub w_index : ℕ
  pub w_length : ℕ

-- The argument is an array of eight bytes.
unfoldable pub from_bytes : List ℕ → SetupPacket
from_bytes b = record {
  bm_request_type = index b 0;
  b_request = index b 1;
  w_value = u16_from_le_bytes (index b 2) (index b 3);
  w_index = u16_from_le_bytes (index b 4) (index b 5);
  w_length = u16_from_le_bytes (index b 6) (index b 7);
}

-- `nusb::transfer::ControlType` and `Recipient`
pub data ControlType : Type 0 where
  standard class vendor : ControlType

pub data Recipient : Type 0 where
  device interface endpoint other : Recipient

unfoldable pub is_in : SetupPacket → Bool
is_in s = not (bit_and s.bm_request_type 0x80 == 0)

unfoldable pub control_type : SetupPacket → ControlType
control_type s =
    let t = bit_and (s.bm_request_type / 2 ^ 5) 0x3 in
    if t == 0 then standard else if t == 1 then class else vendor

unfoldable pub recipient : SetupPacket → Recipient
recipient s =
    let r = bit_and s.bm_request_type 0x1f in
    if r == 0 then device else if r == 1 then interface else if r == 2 then endpoint else other

unfoldable pub is_set_configuration : SetupPacket → Bool
unfolding is_in
is_set_configuration s = not (is_in s) && (s.bm_request_type == 0x00 && s.b_request == 0x09)

unfoldable pub is_set_interface : SetupPacket → Bool
unfolding is_in
is_set_interface s = not (is_in s) && (s.bm_request_type == 0x01 && s.b_request == 0x0b)

module _ (s : SetupPacket) (byte : IsU8 s.bm_request_type) where
  -- The direction is the highest bit of the request type, the type bits 5 and 6, the recipient the
  -- lowest five bits.
  is_out_iff : (is_in s ≡ false) ↔ (s.bm_request_type < 128)
  unfolding is_in
  is_out_iff = ground (arith, bit_and-top s.bm_request_type byte)

  standard_iff : (control_type s ≡ standard) ↔ (s.bm_request_type / 32 % 4 ≡ 0)
  unfolding control_type
  standard_iff = ground (arith, bit_and-mask 2 (s.bm_request_type / 2 ^ 5))

  device_iff : (recipient s ≡ device) ↔ (s.bm_request_type % 32 ≡ 0)
  unfolding recipient
  device_iff = ground (arith, bit_and-mask 5 s.bm_request_type)

  interface_iff : (recipient s ≡ interface) ↔ (s.bm_request_type % 32 ≡ 1)
  unfolding recipient
  interface_iff = ground (arith, bit_and-mask 5 s.bm_request_type)

  set_configuration_iff :
      (is_set_configuration s ≡ true) ↔ ((s.bm_request_type ≡ 0) × (s.b_request ≡ 9))
  unfolding is_set_configuration
  set_configuration_iff = ground (arith, bit_and-top s.bm_request_type byte)

  set_interface_iff : (is_set_interface s ≡ true) ↔ ((s.bm_request_type ≡ 1) × (s.b_request ≡ 11))
  unfolding is_set_interface
  set_interface_iff = ground (arith, bit_and-top s.bm_request_type byte)

  -- For a request type of one byte: the two requests that are intercepted are exactly the standard
  -- requests from the host, to the device with code 9 and to an interface with code 11.
  pub intercepted :
      ((is_set_configuration s ≡ true) ↔ (
        (is_in s ≡ false)
        × (control_type s ≡ standard)
        × (recipient s ≡ device)
        × (s.b_request ≡ 9)))
      × ((is_set_interface s ≡ true) ↔ (
          (is_in s ≡ false)
          × (control_type s ≡ standard)
          × (recipient s ≡ interface)
          × (s.b_request ≡ 11)))
  intercepted = (
    (
      λ h.
          let (t, r) = set_configuration_iff.0 h in
          (is_out_iff.1 (omega arith), standard_iff.1 (omega arith), device_iff.1 (omega arith), r),
      λ h.
          set_configuration_iff.1
            (omega (arith, is_out_iff.0 h.0, standard_iff.0 h.1, device_iff.0 h.2, h.3)),
    ),
    (
      λ h.
          let (t, r) = set_interface_iff.0 h in
          (
            is_out_iff.1 (omega arith),
            standard_iff.1 (omega arith),
            interface_iff.1 (omega arith),
            r,
          ),
      λ h.
          set_interface_iff.1
            (omega (arith, is_out_iff.0 h.0, standard_iff.0 h.1, interface_iff.0 h.2, h.3)),
    ),
  )
