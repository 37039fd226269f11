-- ===== src/Proto/Urb/Replies.antt =====
-- The replies of crates/usbip-proto/src/urb.rs.
use usbipd_darwin.Common.{ℕ, List, ◌++◌, replicate, ℤ}
use usbipd_darwin.Common.Words.{i32_to_be_bytes}
use usbipd_darwin.Proto.Urb.Messages.{encode_header, usbip_ret_submit, usbip_ret_unlink}

-- `padding` is an array of eight bytes.
pub record RetSubmit : Type 0 where
  pub status : ℤ
  pub actual_length : ℤ
  pub start_frame : ℤ
  pub number_of_packets : ℤ
  pub error_count : ℤ
  pub padding : List ℕ

unfoldable pub encode_ret_submit : RetSubmit → List ℕ → List ℕ
encode_ret_submit r out =
    out
    ++ (i32_to_be_bytes r.status
        ++ (i32_to_be_bytes r.actual_length
            ++ (i32_to_be_bytes r.start_frame
                ++ (i32_to_be_bytes r.number_of_packets
                    ++ (i32_to_be_bytes r.error_count ++ r.padding)))))

-- `padding` is an array of 24 bytes.
pub record RetUnlink : Type 0 where
  pub status : ℤ
  pub padding : List ℕ

unfoldable pub encode_ret_unlink : RetUnlink → List ℕ → List ℕ
encode_ret_unlink r out = out ++ (i32_to_be_bytes r.status ++ r.padding)

unfoldable pub write_ret_submit : List ℕ → ℕ → RetSubmit → List ℕ → List ℕ
write_ret_submit out seqnum ret payload =
    encode_ret_submit ret (
      encode_header
        (record { command = usbip_ret_submit; seqnum = seqnum; devid = 0; direction = 0; ep = 0 })
        out)
    ++ payload

unfoldable pub write_ret_unlink : List ℕ → ℕ → ℤ → List ℕ
write_ret_unlink out seqnum status =
    encode_ret_unlink (record { status = status; padding = replicate 24 0 })
      (encode_header
        (record { command = usbip_ret_unlink; seqnum = seqnum; devid = 0; direction = 0; ep = 0 })
        out)
