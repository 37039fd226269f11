-- ===== src/Daemon/Urb/Reading/Stops.antt =====
-- Where a round of the loop stops, by the bytes that were there for it.
use usbipd_darwin.Common.{
  Result-cases, Bool-cases, leb, ltb, slice, not, ◌&&◌, ◌==◌, nat_eq, ℕ, ◌≤◌, ◌<◌, List, [], ◌≡◌,
  sym, subst, arith, inl, inr, length,
}
use usbipd_darwin.Proto.Urb.Messages.{
  UrbHeader, decode_header, decode_cmd_submit, decode_cmd_unlink, usbip_cmd_submit,
  usbip_cmd_unlink,
}
use usbipd_darwin.Daemon.Conn.{Conn, ReadError, read_exact, unexpected_eof, read_failed}
use usbipd_darwin.Daemon.Urb.Requests.{
  Request, submit, unlink, disconnect, fail, read_request, dispatch, read_submit, read_unlink,
  buffer_length, dir_in, read_urb_header, decode_urb_header, decode_submit, decode_unlink,
  read_out_payload, devid_mismatch, unknown_command,
}
use usbipd_darwin.Daemon.Urb.Reading.{LoopEnd, client_gone, failed, held_up}
use usbipd_darwin.Daemon.Urb.Reading.Exact.{Ending-cases}

-- The header was not read where the stream ended in front of its 48 bytes, and was otherwise.
abbrev pub Behind : ReadError → List ℕ → Request → Type 0
Behind ending buf disconnect = (length buf < 48) × (ending ≡ unexpected_eof)
Behind ending buf (fail (read_urb_header e)) = (length buf < 48) × (ending ≡ read_failed)
Behind ending buf (fail e) = 48 ≤ length buf
Behind ending buf (submit _ _ _) = 48 ≤ length buf
Behind ending buf (unlink _ _) = 48 ≤ length buf

abbrev pub IsStop : ReadError → List ℕ → LoopEnd → Type 0
IsStop ending buf client_gone = (length buf < 48) × (ending ≡ unexpected_eof)
IsStop ending buf (failed (read_urb_header e)) = (length buf < 48) × (ending ≡ read_failed)
IsStop ending buf (failed e) = 48 ≤ length buf
IsStop ending buf (held_up q) = 48 ≤ length buf

module _ (ending : ReadError) (buf : List ℕ) (long : 48 ≤ length buf) where
  read_unlink-Behind :
      (basic : UrbHeader) (header_buf : List ℕ) → Behind ending buf (read_unlink basic header_buf)
  unfolding read_unlink
  read_unlink-Behind basic header_buf =
      elim (Result-cases (decode_cmd_unlink (slice header_buf 20 48))) [
        | inr (e, bad) ↦
            let same : read_unlink basic header_buf ≡ fail (decode_unlink e) =
              ground (arith, bad) in
            subst (Behind ending buf) (sym same) long
        | inl (cmd, fine) ↦
            let same : read_unlink basic header_buf ≡ unlink basic cmd = ground (arith, fine) in
            subst (Behind ending buf) (sym same) long
      ]

  read_submit-Behind :
      (basic : UrbHeader) (header_buf : List ℕ) (c : Conn)
      → Behind ending buf (read_submit basic header_buf c).0
  unfolding read_submit
  read_submit-Behind basic header_buf c =
      let r : Request = (read_submit basic header_buf c).0 in
      elim (Result-cases (decode_cmd_submit (slice header_buf 20 48))) [
        | inr (e, bad) ↦
            let same : r ≡ fail (decode_submit e) = ground (arith, bad) in
            subst (Behind ending buf) (sym same) long
        | inl (cmd, fine) ↦ elim (Bool-cases (not (dir_in basic) && ltb 0 (buffer_length cmd))) [
          | inr none_out ↦
              let same : r ≡ submit basic cmd [] = ground (arith, fine, none_out) in
              subst (Behind ending buf) (sym same) long
          | inl out ↦ elim (Result-cases (read_exact (buffer_length cmd) c).0) [
            | inr (e, cut) ↦
                let same : r ≡ fail (read_out_payload e) = ground (arith, fine, out, cut) in
                subst (Behind ending buf) (sym same) long
            | inl (payload, read) ↦
                let same : r ≡ submit basic cmd payload = ground (arith, fine, out, read) in
                subst (Behind ending buf) (sym same) long
          ]
        ]
      ]

  dispatch-Behind :
      (devid : ℕ) (basic : UrbHeader) (header_buf : List ℕ) (c : Conn)
      → Behind ending buf (dispatch devid basic header_buf c).0
  unfolding dispatch
  dispatch-Behind devid basic header_buf c =
      let r : Request = (dispatch devid basic header_buf c).0 in
      elim (Bool-cases (basic.devid == devid)) [
        | inr other ↦
            let same : r ≡ fail devid_mismatch = ground (arith, other) in
            subst (Behind ending buf) (sym same) long
        | inl ours ↦ elim (Bool-cases (basic.command == usbip_cmd_submit)) [
          | inl is_submit ↦
              let same : r ≡ (read_submit basic header_buf c).0 = ground (arith, ours, is_submit) in
              subst (Behind ending buf) (sym same) (read_submit-Behind basic header_buf c)
          | inr not_submit ↦ elim (Bool-cases (basic.command == usbip_cmd_unlink)) [
            | inl is_unlink ↦
                let same : r ≡ read_unlink basic header_buf =
                  ground (arith, ours, not_submit, is_unlink) in
                subst (Behind ending buf) (sym same) (read_unlink-Behind basic header_buf)
            | inr neither ↦
                let same : r ≡ fail (unknown_command basic.command) =
                  ground (arith, ours, not_submit, neither) in
                subst (Behind ending buf) (sym same) long
          ]
        ]
      ]

pub read_request-Behind : (devid : ℕ) (c : Conn) → Behind c.ending c.input (read_request devid c).0
unfolding read_request read_exact
read_request-Behind devid c =
    let r : Request = (read_request devid c).0 in
    elim (Bool-cases (leb 48 (length c.input))) [
      | inr short ↦ elim (Ending-cases c.ending) [
        | inl eof ↦
            let same : r ≡ disconnect = ground (arith, short, eof) in
            subst (Behind c.ending c.input) (sym same) (ground (arith, short), eof)
        | inr broken ↦
            let same : r ≡ fail (read_urb_header read_failed) = ground (arith, short, broken) in
            subst (Behind c.ending c.input) (sym same) (ground (arith, short), broken)
      ]
      | inl enough ↦
          let long : 48 ≤ length c.input = ground (arith, enough) in
          let (read, c') = read_exact 48 c in
          elim (Result-cases read) [
            | inr (e, bad) ↦ absurd (ground (arith, enough, bad))
            | inl (header_buf, fine) ↦ elim (Result-cases (decode_header (slice header_buf 0 20))) [
              | inr (e, bad) ↦
                  let same : r ≡ fail (decode_urb_header e) = ground (arith, enough, fine, bad) in
                  subst (Behind c.ending c.input) (sym same) long
              | inl (basic, decoded) ↦
                  let same : r ≡ (dispatch devid basic header_buf c').0 =
                    ground (arith, enough, fine, decoded) in
                  subst (Behind c.ending c.input) (sym same)
                    (dispatch-Behind c.ending c.input long devid basic header_buf c')
            ]
          ]
    ]
