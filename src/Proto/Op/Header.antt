-- ===== src/Proto/Op/Header.antt =====
-- The 8-byte op header of crates/usbip-proto/src/op.rs, and the constants of the protocol.
use usbipd_darwin.Common.{ℕ, List, ◌++◌, ok, err, length, ltb, if◌then◌else◌}
use usbipd_darwin.Common.Words.{
  IsU16, IsU32, index, u16_to_be_bytes, u32_to_be_bytes, u16_from_be_bytes, u32_from_be_bytes,
}
use usbipd_darwin.Proto.Error.{short_read, Decoded}

abbrev pub usbip_version : ℕ
usbip_version = 0x0111

abbrev pub op_req_devlist : ℕ
op_req_devlist = 0x8005

abbrev pub op_rep_devlist : ℕ
op_rep_devlist = 0x0005

abbrev pub op_req_import : ℕ
op_req_import = 0x8003

abbrev pub op_rep_import : ℕ
op_rep_import = 0x0003

pub record OpHeader : Type 0 where
  pub version : ℕ
  pub code : ℕ
  pub status : ℕ

-- The widths of the fields.
abbrev pub IsOpHeader : OpHeader → Type 0
IsOpHeader h = IsU16 h.version × IsU16 h.code × IsU32 h.status

abbrev pub size : ℕ
size = 8

unfoldable pub new : ℕ → OpHeader
new code = record { version = usbip_version; code = code; status = 0 }

unfoldable pub encode : OpHeader → List ℕ → List ℕ
encode h out =
    out ++ (u16_to_be_bytes h.version ++ (u16_to_be_bytes h.code ++ u32_to_be_bytes h.status))

unfoldable pub decode : List ℕ → Decoded OpHeader
decode buf =
    if ltb (length buf) size
    then err (short_read size (length buf))
    else ok (record {
      version = u16_from_be_bytes (index buf 0) (index buf 1);
      code = u16_from_be_bytes (index buf 2) (index buf 3);
      status = u32_from_be_bytes (index buf 4) (index buf 5) (index buf 6) (index buf 7);
    })
