-- ===== src/Proto/Urb/Messages.antt =====
-- The headers and commands of crates/usbip-proto/src/urb.rs.
use usbipd_darwin.Common.{ℕ, ◌+◌, List, ◌++◌, ◌≡◌, ok, err, length, slice, ltb, if◌then◌else◌, ℤ}
use usbipd_darwin.Common.Words.{
  IsU32, IsI32, index, u32_to_be_bytes, u32_from_be_bytes, i32_to_be_bytes, i32_from_be_bytes,
}
use usbipd_darwin.Proto.Error.{short_read, Decoded}

abbrev pub usbip_cmd_submit : ℕ
usbip_cmd_submit = 1

abbrev pub usbip_cmd_unlink : ℕ
usbip_cmd_unlink = 2

abbrev pub usbip_ret_submit : ℕ
usbip_ret_submit = 3

abbrev pub usbip_ret_unlink : ℕ
usbip_ret_unlink = 4

abbrev pub urb_header_size : ℕ
urb_header_size = 48

abbrev pub usbip_dir_out : ℕ
usbip_dir_out = 0

abbrev pub usbip_dir_in : ℕ
usbip_dir_in = 1

pub record UrbHeader : Type 0 where
  pub command : ℕ
  pub seqnum : ℕ
  pub devid : ℕ
  pub direction : ℕ
  pub ep : ℕ

abbrev pub IsUrbHeader : UrbHeader → Type 0
IsUrbHeader h = IsU32 h.command × IsU32 h.seqnum × IsU32 h.devid × IsU32 h.direction × IsU32 h.ep

abbrev pub basic_size : ℕ
basic_size = 20

-- The size of every tail.
abbrev pub tail_size : ℕ
tail_size = 28

unfoldable pub encode_header : UrbHeader → List ℕ → List ℕ
encode_header h out =
    out
    ++ (u32_to_be_bytes h.command
        ++ (u32_to_be_bytes h.seqnum
            ++ (u32_to_be_bytes h.devid ++ (u32_to_be_bytes h.direction ++ u32_to_be_bytes h.ep))))

-- `u32::from_be_bytes([buf[o], buf[o + 1], buf[o + 2], buf[o + 3]])`
abbrev u32_at : List ℕ → ℕ → ℕ
u32_at buf o =
    u32_from_be_bytes (index buf o) (index buf (o + 1)) (index buf (o + 2)) (index buf (o + 3))

abbrev pub i32_at : List ℕ → ℕ → ℤ
i32_at buf o =
    i32_from_be_bytes (index buf o) (index buf (o + 1)) (index buf (o + 2)) (index buf (o + 3))

unfoldable pub decode_header : List ℕ → Decoded UrbHeader
decode_header buf =
    if ltb (length buf) basic_size
    then err (short_read basic_size (length buf))
    else ok (record {
      command = u32_at buf 0;
      seqnum = u32_at buf 4;
      devid = u32_at buf 8;
      direction = u32_at buf 12;
      ep = u32_at buf 16;
    })

-- `setup` is an array of eight bytes.
pub record CmdSubmit : Type 0 where
  pub transfer_flags : ℕ
  pub transfer_buffer_length : ℤ
  pub start_frame : ℤ
  pub number_of_packets : ℤ
  pub interval : ℤ
  pub setup : List ℕ

abbrev pub IsCmdSubmit : CmdSubmit → Type 0
IsCmdSubmit c =
    IsU32 c.transfer_flags
    × IsI32 c.transfer_buffer_length
    × IsI32 c.start_frame
    × IsI32 c.number_of_packets
    × IsI32 c.interval
    × (length c.setup ≡ 8)

unfoldable pub encode_cmd_submit : CmdSubmit → List ℕ → List ℕ
encode_cmd_submit c out =
    out
    ++ (u32_to_be_bytes c.transfer_flags
        ++ (i32_to_be_bytes c.transfer_buffer_length
            ++ (i32_to_be_bytes c.start_frame
                ++ (i32_to_be_bytes c.number_of_packets
                    ++ (i32_to_be_bytes c.interval ++ c.setup)))))

unfoldable pub decode_cmd_submit : List ℕ → Decoded CmdSubmit
decode_cmd_submit buf =
    if ltb (length buf) tail_size
    then err (short_read tail_size (length buf))
    else ok (record {
      transfer_flags = u32_at buf 0;
      transfer_buffer_length = i32_at buf 4;
      start_frame = i32_at buf 8;
      number_of_packets = i32_at buf 12;
      interval = i32_at buf 16;
      setup = slice buf 20 28;
    })

-- `padding` is an array of 24 bytes.
pub record CmdUnlink : Type 0 where
  pub unlink_seqnum : ℕ
  pub padding : List ℕ

unfoldable pub decode_cmd_unlink : List ℕ → Decoded CmdUnlink
decode_cmd_unlink buf =
    if ltb (length buf) tail_size
    then err (short_read tail_size (length buf))
    else ok (record { unlink_seqnum = u32_at buf 0; padding = slice buf 4 28 })
