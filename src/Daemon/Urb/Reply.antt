-- ===== src/Daemon/Urb/Reply.antt =====
-- What `run_submit` of crates/usbipd/src/daemon.rs answers a transfer with.
use usbipd_darwin.Common.{
  ℕ, ◌+◌, ◌-◌, ◌^◌, ◌≤◌, List, [], ◌≡◌, ◌⊎◌, inl, inr, Bool-cases, arith, Bool, true, false, Result,
  ok, err, nat_eq, ltb, if◌then◌else◌, length, replicate, ℤ, pos, negsuc,
}
use usbipd_darwin.Common.Words.{IsI32}
use usbipd_darwin.Host.Open.{HostError}
use usbipd_darwin.Proto.Urb.Messages.{UrbHeader, CmdSubmit, encode_header}
use usbipd_darwin.Proto.Urb.Replies.{RetSubmit, encode_ret_submit, write_ret_submit}
use usbipd_darwin.Daemon.Urb.Requests.{buffer_length, dir_in}

-- Linux errno values: -32 and -75
abbrev pub epipe : ℤ
epipe = negsuc 31

abbrev pub eoverflow : ℤ
eoverflow = negsuc 74

-- What the blocking closure returns: the count of bytes and the data. A control transfer gives its
-- data only, and an OUT one counts what was sent.
pub data Transfer : Type 0 where
  control : Result (List ℕ) HostError → Transfer
  on_endpoint : Result (ℕ × List ℕ) HostError → Transfer

unfoldable pub transfer_result : Bool → List ℕ → Transfer → Result (ℕ × List ℕ) HostError
transfer_result into out_payload (control (ok bytes)) =
    ok (if into then length bytes else length out_payload, bytes)
transfer_result into out_payload (control (err e)) = err e
transfer_result into out_payload (on_endpoint r) = r

-- `i32::try_from(n).unwrap_or(i32::MAX)`
abbrev saturate_i32 : ℕ → ℤ
saturate_i32 n = if ltb n (2 ^ 31) then pos n else pos (2 ^ 31 - 1)

-- The status, the actual length and the payload.
unfoldable pub outcome : Bool → ℕ → Result (ℕ × List ℕ) HostError → ℤ × ℤ × List ℕ
outcome true tbl (ok (actual, bytes)) =
    if ltb tbl (length bytes) then (eoverflow, pos 0, []) else (pos 0, saturate_i32 actual, bytes)
outcome false tbl (ok (actual, bytes)) = (pos 0, saturate_i32 actual, [])
outcome into tbl (err e) = (epipe, pos 0, [])

-- The fields of the RET_SUBMIT that are not zero.
unfoldable pub reply_record : ℤ → ℤ → RetSubmit
reply_record status actual_length = record {
  status = status;
  actual_length = actual_length;
  start_frame = pos 0;
  number_of_packets = pos 0;
  error_count = pos 0;
  padding = replicate 8 0;
}

-- The bytes of the RET_SUBMIT.
unfoldable pub reply_bytes : UrbHeader → CmdSubmit → List ℕ → Transfer → List ℕ
reply_bytes basic cmd out_payload t =
    let (status, actual_length, payload) =
      outcome (dir_in basic) (buffer_length cmd) (transfer_result (dir_in basic) out_payload t) in
    write_ret_submit [] basic.seqnum (reply_record status actual_length) payload

saturate_i32-IsI32 : (n : ℕ) → IsI32 (saturate_i32 n)
saturate_i32-IsI32 n = elim (Bool-cases (ltb n (2 ^ 31))) [
  | inl small ↦ rw small (ground (arith, small))
  | inr large ↦ rw large (omega arith)
]

pub outcome-IsI32 :
    (into : Bool) (tbl : ℕ) (r : Result (ℕ × List ℕ) HostError)
    → let (status, actual_length, _) = outcome into tbl r in IsI32 status × IsI32 actual_length
unfolding outcome
outcome-IsI32 true tbl (ok (actual, bytes)) = elim (Bool-cases (ltb tbl (length bytes))) [
  | inl long ↦ rw long (omega arith, omega arith)
  | inr fits ↦ rw fits (omega arith, saturate_i32-IsI32 actual)
]
outcome-IsI32 false tbl (ok (actual, bytes)) = (omega arith, saturate_i32-IsI32 actual)
outcome-IsI32 true tbl (err e) = (omega arith, omega arith)
outcome-IsI32 false tbl (err e) = (omega arith, omega arith)

length-reply :
    (seqnum : ℕ) (status actual_length : ℤ) (payload : List ℕ)
    → length (write_ret_submit [] seqnum (reply_record status actual_length) payload)
      ≡ 48 + length payload
unfolding write_ret_submit encode_ret_submit encode_header reply_record
length-reply seqnum status actual_length payload = omega arith

-- On every outcome the payload fits the buffer that the client announced, and an OUT transfer has none;
-- the status is 0, or it is -32 or -75 with no length and no payload; the reply is its 48 bytes and the
-- payload.
pub reply_fits :
    (basic : UrbHeader) (cmd : CmdSubmit) (out_payload : List ℕ) (t : Transfer)
    → let (status, actual_length, payload) =
        outcome (dir_in basic) (buffer_length cmd) (transfer_result (dir_in basic) out_payload t) in
      (length payload ≤ (if dir_in basic then buffer_length cmd else 0))
      × ((status ≡ pos 0)
          ⊎ (((status ≡ epipe) ⊎ (status ≡ eoverflow)) × (actual_length ≡ pos 0) × (payload ≡ [])))
      × (length (reply_bytes basic cmd out_payload t) ≡ 48 + length payload)
unfolding outcome reply_bytes
reply_fits basic cmd out_payload t =
    let o =
      outcome (dir_in basic) (buffer_length cmd) (transfer_result (dir_in basic) out_payload t) in
    ground (arith, length-reply basic.seqnum (o.0) (o.1) (o.2))
