-- ===== src/Daemon/Urb/Framing.antt =====
-- The loop reads back the requests that a client writes.
use usbipd_darwin.Common.{
  ℕ, ◌≤◌, List, [], ◌∷◌, ◌++◌, ◌≡◌, refl, ap, sym, ◌∙◌, arith, ok, nat_eq, le→leb, take-length_le,
  if◌then◌else◌, length, slice, length-append, take-append, drop-append, append_assoc, append-nil,
}
use usbipd_darwin.Proto.Urb.Messages.{
  UrbHeader, IsUrbHeader, CmdSubmit, IsCmdSubmit, encode_header, encode_cmd_submit, decode_header,
  decode_cmd_submit, usbip_cmd_submit,
}
use usbipd_darwin.Proto.Urb.RoundTrip.{
  decode_header-encode_header, decode_cmd_submit-encode_cmd_submit,
}
use usbipd_darwin.Daemon.Conn.{Conn, read_exact}
use usbipd_darwin.Daemon.Urb.Requests.{
  submit, buffer_length, dir_in, read_submit, dispatch, read_request,
}

-- The bytes that a client sends to submit a transfer: an OUT transfer has its payload behind it.
abbrev pub submit_bytes : UrbHeader → CmdSubmit → List ℕ → List ℕ
submit_bytes basic cmd payload = encode_header basic [] ++ (encode_cmd_submit cmd [] ++ payload)

-- The payload that belongs to the command.
abbrev pub HasPayload : UrbHeader → CmdSubmit → List ℕ → Type 0
HasPayload basic cmd payload = length payload ≡ (if dir_in basic then 0 else buffer_length cmd)

pub length-encode_header : (h : UrbHeader) → length (encode_header h []) ≡ 20
unfolding encode_header
length-encode_header h = refl

length-encode_cmd_submit :
    (c : CmdSubmit) → length c.setup ≡ 8 → length (encode_cmd_submit c []) ≡ 28
unfolding encode_cmd_submit
length-encode_cmd_submit c h = omega arith

-- A read of exactly the first part of the input.
pub read_exact-append :
    (n : ℕ) (front rest : List ℕ) (c : Conn)
    → n ≡ length front
    → c.input ≡ front ++ rest
    → read_exact n c ≡ (ok front, record c { input = rest })
unfolding read_exact
read_exact-append n front rest c len e =
    let enough : n ≤ length (front ++ rest) = rw length-append (omega arith) in
    ground (
      arith,
      ap length e,
      le→leb n (length (front ++ rest)) enough,
      take-append n front rest len,
      drop-append n front rest len,
    )

-- The dispatch on a submit, with its payload next in the stream.
dispatch-submit :
    (basic : UrbHeader) (cmd : CmdSubmit) (header_buf payload rest : List ℕ) (c : Conn)
    → basic.command ≡ usbip_cmd_submit
    → decode_cmd_submit (slice header_buf 20 48) ≡ ok cmd
    → HasPayload basic cmd payload
    → c.input ≡ payload ++ rest
    → dispatch basic.devid basic header_buf c
      ≡ (submit basic cmd payload, record c { input = rest })
unfolding dispatch read_submit
dispatch-submit basic cmd header_buf [] rest c hc dec hp e =
    ground (arith, read_exact-append (buffer_length cmd) [] rest c)
dispatch-submit basic cmd header_buf (x ∷ xs) rest c hc dec hp e =
    ground (arith, read_exact-append (buffer_length cmd) (x ∷ xs) rest c)

module _ (basic : UrbHeader) (cmd : CmdSubmit) (vb : IsUrbHeader basic) (vc : IsCmdSubmit cmd) where
  header_part :
      decode_header (slice (encode_header basic [] ++ encode_cmd_submit cmd []) 0 20) ≡ ok basic
  header_part =
      rw
        (take-append 20 (encode_header basic []) (encode_cmd_submit cmd [])
          (sym (length-encode_header basic)))
        (rw append-nil at (decode_header-encode_header basic [] vb))

  submit_part :
      decode_cmd_submit (slice (encode_header basic [] ++ encode_cmd_submit cmd []) 20 48) ≡ ok cmd
  submit_part =
      rw
        (
          drop-append 20 (encode_header basic []) (encode_cmd_submit cmd [])
              (sym (length-encode_header basic)),
          take-length_le 28 (encode_cmd_submit cmd [])
              (omega (arith, length-encode_cmd_submit cmd vc.5)),
        )
        (rw append-nil at (decode_cmd_submit-encode_cmd_submit cmd [] vc))

-- A CMD_SUBMIT that a client writes, with fields of their widths, the loop's devid, and for an
-- OUT transfer the announced count of payload bytes behind it, is read as that command with that
-- payload, and what follows it in the stream is left for the next round.
pub read_request-submit :
    (basic : UrbHeader) (cmd : CmdSubmit) (payload rest : List ℕ) (c : Conn)
    → IsUrbHeader basic
    → IsCmdSubmit cmd
    → basic.command ≡ usbip_cmd_submit
    → HasPayload basic cmd payload
    → c.input ≡ submit_bytes basic cmd payload ++ rest
    → read_request basic.devid c ≡ (submit basic cmd payload, record c { input = rest })
unfolding read_request
read_request-submit basic cmd payload rest c vb vc hc hp e =
    let header_buf = encode_header basic [] ++ encode_cmd_submit cmd [] in
    let len : 48 ≡ length header_buf =
      rw length-append
        (omega (arith, length-encode_header basic, length-encode_cmd_submit cmd vc.5)) in
    let input : c.input ≡ header_buf ++ (payload ++ rest) = e ∙ simp append_assoc in
    let dispatched =
      dispatch-submit basic cmd header_buf payload rest (record c { input = payload ++ rest }) hc
        (submit_part basic cmd vb vc) hp refl in
    ground (
      arith,
      read_exact-append 48 header_buf (payload ++ rest) c len input,
      header_part basic cmd vb vc,
      dispatched,
    )
