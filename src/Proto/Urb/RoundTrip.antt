-- ===== src/Proto/Urb/RoundTrip.antt =====
-- Decoding what was encoded in URB mode, and encoding what was decoded.
use native.Mathlib.Decide.{dec_lt}
use usbipd_darwin.Common.{
  ℕ, ◌+◌, ◌/◌, ◌%◌, ◌^◌, ◌≤◌, ◌<◌, List, [], ◌∷◌, ◌++◌, ◌≡◌, ◌⊎◌, inl, inr, refl, length, ok, err,
  lt→ltb, take, drop, arith, length-append, ℤ, take-append, drop-append, sym, replicate,
}
use usbipd_darwin.Common.Words.{
  IsBytes, IsU32, IsI32, u32_be_round, i32_round, IsU32-i32_to_u32, u32_from_be_bytes, i32_to_u32,
  i32_to_be_bytes, i32_from_be_bytes,
}
use usbipd_darwin.Proto.Error.{short_read}
use usbipd_darwin.Proto.Urb.Messages.{
  UrbHeader, IsUrbHeader, encode_header, decode_header, CmdSubmit, IsCmdSubmit, encode_cmd_submit,
  decode_cmd_submit, usbip_ret_submit, usbip_ret_unlink,
}
use usbipd_darwin.Proto.Urb.Replies.{
  RetSubmit, encode_ret_submit, encode_ret_unlink, write_ret_submit, write_ret_unlink,
}

-- A basic header with fields of 32 bits comes back from its 20 bytes, whatever follows them.
pub decode_header-encode_header :
    (h : UrbHeader) (rest : List ℕ)
    → IsUrbHeader h
    → decode_header (encode_header h [] ++ rest) ≡ ok h
unfolding decode_header encode_header
decode_header-encode_header h rest v =
    rw
      (
        u32_be_round h.command v.0,
        u32_be_round h.seqnum v.1,
        u32_be_round h.devid v.2,
        u32_be_round h.direction v.3,
        u32_be_round h.ep v.4,
      )
      (ground arith)

pub i32_be_round :
    (z : ℤ)
    → IsI32 z
    → i32_from_be_bytes
        (i32_to_u32 z / 2 ^ 24 % 256)
        (i32_to_u32 z / 2 ^ 16 % 256)
        (i32_to_u32 z / 2 ^ 8 % 256)
        (i32_to_u32 z % 256)
      ≡ z
i32_be_round z h = rw (u32_be_round (i32_to_u32 z) (IsU32-i32_to_u32 z h)) (i32_round z h)

-- A submit command with fields of their widths comes back from its 28 bytes, with the negative
-- numbers and the setup packet, whatever follows them.
pub decode_cmd_submit-encode_cmd_submit :
    (c : CmdSubmit) (rest : List ℕ)
    → IsCmdSubmit c
    → decode_cmd_submit (encode_cmd_submit c [] ++ rest) ≡ ok c
unfolding decode_cmd_submit encode_cmd_submit
decode_cmd_submit-encode_cmd_submit c rest v =
    rw
      (
        u32_be_round c.transfer_flags v.0,
        i32_be_round c.transfer_buffer_length v.1,
        i32_be_round c.start_frame v.2,
        i32_be_round c.number_of_packets v.3,
        i32_be_round c.interval v.4,
        length-append c.setup rest,
        v.5,
        take-append 8 c.setup rest (omega arith),
      )
      (ground arith)

decode_header_long :
    (buf : List ℕ)
    → IsBytes buf
    → 20 ≤ length buf
    → (h : UrbHeader) × (decode_header buf ≡ ok h) × (encode_header h [] ≡ take 20 buf)
unfolding decode_header encode_header
decode_header_long
      (a ∷ b ∷ c ∷ d ∷ e ∷ f ∷ g ∷ h ∷ i ∷ j ∷ k ∷ l ∷ m ∷ n ∷ o ∷ p ∷ q ∷ r ∷ s ∷ t ∷ rest) bs
      long =
    (
      record {
        command = u32_from_be_bytes a b c d;
        seqnum = u32_from_be_bytes e f g h;
        devid = u32_from_be_bytes i j k l;
        direction = u32_from_be_bytes m n o p;
        ep = u32_from_be_bytes q r s t;
      },
      ground arith,
      ground arith,
    )
decode_header_long _ bs long = absurd (omega arith)

decode_header_short :
    (buf : List ℕ) → length buf < 20 → decode_header buf ≡ err (short_read 20 (length buf))
unfolding decode_header
decode_header_short buf h = rw (lt→ltb (length buf) 20 h)

-- A buffer of fewer than 20 bytes is refused with its length; the first 20 bytes of any other are a
-- basic header, and encoding that header gives them back.
pub decode_header_cases :
    (buf : List ℕ)
    → IsBytes buf
    → ((length buf < 20) × (decode_header buf ≡ err (short_read 20 (length buf))))
      ⊎ ((20 ≤ length buf)
          × ((h : UrbHeader) × (decode_header buf ≡ ok h) × (encode_header h [] ≡ take 20 buf)))
decode_header_cases buf bs = elim (dec_lt (length buf) 20) [
  | yes short ↦ inl (short, decode_header_short buf short)
  | no long ↦ inr (omega arith, decode_header_long buf bs (omega arith))
]

-- For a sequence number of 32 bits and 8 bytes of padding, the reply to a submit is a 20-byte
-- header with that number, the status and the length at offset 20, and the payload behind 48
-- bytes.
pub write_ret_submit_lem :
    (seqnum : ℕ) (r : RetSubmit) (payload : List ℕ)
    → IsU32 seqnum
    → length r.padding ≡ 8
    → (decode_header (write_ret_submit [] seqnum r payload)
        ≡ ok (record {
          command = usbip_ret_submit;
          seqnum = seqnum;
          devid = 0;
          direction = 0;
          ep = 0;
        }))
      × (take 8 (drop 20 (write_ret_submit [] seqnum r payload))
          ≡ i32_to_be_bytes r.status ++ i32_to_be_bytes r.actual_length)
      × (drop 48 (write_ret_submit [] seqnum r payload) ≡ payload)
      × (length (write_ret_submit [] seqnum r payload) ≡ 48 + length payload)
unfolding write_ret_submit encode_ret_submit encode_header decode_header
write_ret_submit_lem seqnum r payload hs hp = (
  rw (u32_be_round seqnum hs) (ground arith),
  refl,
  drop-append 8 r.padding payload (sym hp),
  omega (arith, length-append r.padding payload),
)

-- For a sequence number of 32 bits, the reply to an unlink has 48 bytes: the header with that
-- number, the status, and zeros.
pub write_ret_unlink_lem :
    (seqnum : ℕ) (status : ℤ)
    → IsU32 seqnum
    → (decode_header (write_ret_unlink [] seqnum status)
        ≡ ok (record {
          command = usbip_ret_unlink;
          seqnum = seqnum;
          devid = 0;
          direction = 0;
          ep = 0;
        }))
      × (drop 20 (write_ret_unlink [] seqnum status) ≡ i32_to_be_bytes status ++ replicate 24 0)
      × (length (write_ret_unlink [] seqnum status) ≡ 48)
unfolding write_ret_unlink encode_ret_unlink encode_header decode_header
write_ret_unlink_lem seqnum status hs = (rw (u32_be_round seqnum hs) (ground arith), refl, refl)
