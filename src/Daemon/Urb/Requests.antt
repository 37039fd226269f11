-- ===== src/Daemon/Urb/Requests.antt =====
-- The reading half of `urb_loop`, `handle_cmd_submit` and `handle_cmd_unlink` of
-- crates/usbipd/src/daemon.rs: one request from the stream.
use usbipd_darwin.Common.{
  ℕ, List, [], Bool, not, ◌&&◌, Result, ok, err, ◌==◌, nat_eq, ltb, if◌then◌else◌, slice, bit_and,
  bit_or, pos, negsuc,
}
use usbipd_darwin.Proto.Error.{ProtoError}
use usbipd_darwin.Proto.Urb.Messages.{
  UrbHeader, CmdSubmit, CmdUnlink, decode_header, decode_cmd_submit, decode_cmd_unlink,
  usbip_cmd_submit, usbip_cmd_unlink, usbip_dir_in, urb_header_size,
}
use usbipd_darwin.Daemon.Conn.{Conn, ReadError, WriteError, unexpected_eof, read_failed, read_exact}

pub data UrbError : Type 0 where
  read_urb_header read_out_payload : ReadError → UrbError
  decode_urb_header decode_submit decode_unlink : ProtoError → UrbError
  devid_mismatch : UrbError
  unknown_command : ℕ → UrbError
  write_unlink_reply : WriteError → UrbError

-- What the loop does next: a request, a clean disconnect, or the error that it ends with.
pub data Request : Type 0 where
  submit : UrbHeader → CmdSubmit → List ℕ → Request
  unlink : UrbHeader → CmdUnlink → Request
  disconnect : Request
  fail : UrbError → Request

-- `usize::try_from(cmd.transfer_buffer_length).unwrap_or(0)`
unfoldable pub buffer_length : CmdSubmit → ℕ
buffer_length cmd = elim cmd.transfer_buffer_length as (λ _. ℕ) [ pos n ↦ n | negsuc n ↦ 0 ]

abbrev pub dir_in : UrbHeader → Bool
dir_in basic = basic.direction == usbip_dir_in

-- The endpoint's address: its number with the direction bit, and 0 for the control endpoint. The
-- number has four bits, so `u8::try_from` does not fail.
unfoldable pub endpoint_address : UrbHeader → ℕ
endpoint_address basic =
    if basic.ep == 0 then 0 else bit_or (bit_and basic.ep 0xf) (if dir_in basic then 0x80 else 0x00)

or_payload_error : UrbHeader → CmdSubmit → Result (List ℕ) ReadError → Request
or_payload_error basic cmd (ok payload) = submit basic cmd payload
or_payload_error basic cmd (err e) = fail (read_out_payload e)

-- The start of `handle_cmd_submit`: the command, and the payload of an OUT transfer.
unfoldable pub read_submit : UrbHeader → List ℕ → Conn → Request × Conn
unfolding or_payload_error
read_submit basic header_buf conn =
    elim (decode_cmd_submit (slice header_buf 20 urb_header_size)) as (λ _. Request × Conn) [
      | err e ↦ (fail (decode_submit e), conn)
      | ok cmd ↦
          if not (dir_in basic) && ltb 0 (buffer_length cmd)
          then (let (r, conn') = read_exact (buffer_length cmd) conn in
              (or_payload_error basic cmd r, conn'))
          else (submit basic cmd [], conn)
    ]

unfoldable pub read_unlink : UrbHeader → List ℕ → Request
read_unlink basic header_buf =
    elim (decode_cmd_unlink (slice header_buf 20 urb_header_size)) as (λ _. Request) [
      | err e ↦ fail (decode_unlink e)
      | ok cmd ↦ unlink basic cmd
    ]

-- The dispatch on the command.
unfoldable pub dispatch : ℕ → UrbHeader → List ℕ → Conn → Request × Conn
dispatch devid basic header_buf conn =
    if not (basic.devid == devid)
    then (fail devid_mismatch, conn)
    else if basic.command == usbip_cmd_submit
    then read_submit basic header_buf conn
    else if basic.command == usbip_cmd_unlink
    then (read_unlink basic header_buf, conn)
    else (fail (unknown_command basic.command), conn)

on_header_error : ReadError → Request
on_header_error unexpected_eof = disconnect
on_header_error read_failed = fail (read_urb_header read_failed)

on_header : ℕ → Result (List ℕ) ReadError → Conn → Request × Conn
unfolding on_header_error
on_header devid (err e) conn = (on_header_error e, conn)
on_header devid (ok header_buf) conn =
    elim (decode_header (slice header_buf 0 20)) as (λ _. Request × Conn) [
      | err e ↦ (fail (decode_urb_header e), conn)
      | ok basic ↦ dispatch devid basic header_buf conn
    ]

-- One round of the loop up to the request.
unfoldable pub read_request : ℕ → Conn → Request × Conn
unfolding on_header
read_request devid conn =
    let (r, conn') = read_exact urb_header_size conn in on_header devid r conn'
