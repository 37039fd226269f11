-- ===== src/Daemon/Urb/Reading/Total.antt =====
-- The loop over the whole stream: it ends or waits, and it reads what was sent.
use usbipd_darwin.Common.{
  nat_eq, sym, ℕ, zero, suc, ◌-◌, ◌+◌, ◌*◌, ◌≤◌, ◌<◌, List, [], ◌∷◌, some, ◌≡◌, refl, ap, ◌∙◌,
  arith, inl, inr, length, length-append, subst,
}
use usbipd_darwin.Common.Words.{IsBytes}
use usbipd_darwin.Daemon.Conn.{Conn, ReadError, write_failed}
use usbipd_darwin.Daemon.Urb.Requests.{
  Request, submit, unlink, disconnect, fail, read_request, write_unlink_reply, read_urb_header,
  read_out_payload, decode_urb_header, decode_submit, decode_unlink, devid_mismatch,
  unknown_command,
}
use usbipd_darwin.Daemon.Urb.Reading.{
  IsEnd, request_bytes, read_all, go_on, go_through, unlinks, LoopEnd, client_gone, failed, held_up,
}
use usbipd_darwin.Daemon.Urb.Reading.Exact.{read_request_exact}
use usbipd_darwin.Daemon.Urb.Reading.Rounds.{
  read_all-stop, read_all-next, read_request-Kept, went, waits_on, unwritten, go_through-cases,
}
use usbipd_darwin.Daemon.Urb.Reading.Stops.{Behind, IsStop, read_request-Behind}
use usbipd_darwin.Daemon.Urb.Reading.Outcome.{
  IsLoopEnd, IsRead, IsRead-last, IsRead-next, request_bytes_long,
}

-- Where the reading ends, so does the loop.
go_through-end :
    (devid waits writes : ℕ) (ending : ReadError) (buf : List ℕ) (q : Request) (c : Conn)
    → IsEnd q
    → Behind ending buf q
    → (e : LoopEnd) × (go_through q waits c ≡ (some e, c))
      × IsStop ending buf e
      × IsLoopEnd devid waits writes [] e
unfolding go_through
go_through-end devid waits writes ending buf (submit b d p) c ends at = absurd ends
go_through-end devid waits writes ending buf (unlink b d) c ends at = absurd ends
go_through-end devid waits writes ending buf disconnect c ends at =
    (client_gone, refl, at, omega arith)
go_through-end devid waits writes ending buf (fail (write_unlink_reply e)) c ends at = absurd ends
go_through-end devid waits writes ending buf (fail (read_urb_header e)) c ends at =
    (failed (read_urb_header e), refl, at, (tt, omega arith))
go_through-end devid waits writes ending buf (fail (read_out_payload e)) c ends at =
    (failed (read_out_payload e), refl, at, (tt, omega arith))
go_through-end devid waits writes ending buf (fail (decode_urb_header e)) c ends at =
    (failed (decode_urb_header e), refl, at, (tt, omega arith))
go_through-end devid waits writes ending buf (fail (decode_submit e)) c ends at =
    (failed (decode_submit e), refl, at, (tt, omega arith))
go_through-end devid waits writes ending buf (fail (decode_unlink e)) c ends at =
    (failed (decode_unlink e), refl, at, (tt, omega arith))
go_through-end devid waits writes ending buf (fail devid_mismatch) c ends at =
    (failed devid_mismatch, refl, at, (tt, omega arith))
go_through-end devid waits writes ending buf (fail (unknown_command k)) c ends at =
    (failed (unknown_command k), refl, at, (tt, omega arith))

-- A stream of bytes of any length and with any ending, any fuel above one for each 48 bytes of it,
-- any count of the loop's own writes that work, and any count of its waits that come back: the loop
-- ends, or it is held up in the first wait that does not come back. It ends with a disconnect, a
-- failure to read or to decode, another devid, an unknown command, or a RET_UNLINK that cannot be
-- written, and that only behind as many as can. It ends with a disconnect or a failure to read a
-- header only where less than a header is left, by how the stream ends there, and otherwise at a
-- whole header. The requests that it went on behind have fields of their widths, the loop's devid,
-- and the payloads that belong to them; their bytes, in order, are what it was sent up to the place
-- where it ended, so there is at most one for each 48 bytes; and the loop has written the
-- RET_UNLINKs of the unlinks among them.
pub read_all-total :
    (devid fuel waits : ℕ) (c : Conn)
    → IsBytes c.input
    → length c.input < 48 * fuel
    → (rs : List Request) × (e : LoopEnd) × (d : Conn) × (read_all devid fuel waits c
        ≡ some (rs, e, d))
      × IsRead devid waits c rs e d
unfolding unlinks
read_all-total devid zero waits c bytes enough = absurd (omega arith)
read_all-total devid (suc fuel) waits c bytes enough =
    let (q, c') = read_request devid c in
    let kept = read_request-Kept devid c in
    elim (read_request_exact devid c bytes) [
      | inl ends ↦
          let (e, stops, behind, why) =
            go_through-end devid waits c.writes_left c.ending c.input q c' ends
              (read_request-Behind devid c) in
          (
            [],
            e,
            c',
            read_all-stop devid fuel waits c c' c' q e refl stops,
            IsRead-last devid waits c c' e kept.0 behind why,
          )
      | inr (goes, exact, left) ↦
          let whole : 48 ≤ length c.input = omega (
            arith,
            request_bytes_long devid q goes,
            ap length exact,
            length-append (request_bytes q) c'.input,
          ) in
          elim (go_through-cases devid q waits c' goes) [
            | waits_on stops none_left ↦ (
              [],
              held_up q,
              c',
              read_all-stop devid fuel waits c c' c' q (held_up q) refl stops,
              IsRead-last devid waits c c' (held_up q) kept.0 whole (goes, sym none_left),
            )
            | unwritten stops some_left none_works is_unlink ↦
                let e = failed (write_unlink_reply write_failed) in
                (
                  [],
                  e,
                  c',
                  read_all-stop devid fuel waits c c' c' q e refl stops,
                  IsRead-last devid waits c c' e kept.0 whole
                      (omega (arith, none_works, kept.1), omega arith),
                )
            | went d goes_on some_left input ending told split ↦
                let shorter : 48 + length d.input ≤ length c.input = omega (
                  arith,
                  request_bytes_long devid q goes,
                  ap length exact,
                  length-append (request_bytes q) c'.input,
                  ap length input,
                ) in
                let (rs, e, last, read, r) =
                  read_all-total devid fuel (waits - 1) d (subst IsBytes (sym input) left)
                    (omega (arith, shorter)) in
                (
                  q ∷ rs,
                  e,
                  last,
                  read_all-next devid fuel waits c c' d q refl goes_on ∙ ap (go_on q) read,
                  IsRead-next devid waits c c' d q rs e last goes exact kept some_left input ending
                      told split r,
                )
          ]
    ]
