-- ===== src/Daemon/Urb/Reading/RoundTrip.antt =====
-- The loop reads back the requests that a client writes, one behind the other.
use usbipd_darwin.Common.{
  ℕ, zero, suc, ◌<◌, ◌≤◌, ◌-◌, List, [], ◌∷◌, ◌++◌, some, ◌≡◌, refl, ap, sym, ◌∙◌, arith, ok,
  nat_eq, length, slice, All, length-append, append_assoc, append-nil, take-append, drop-append,
  take-length_le,
}
use usbipd_darwin.Proto.Urb.Messages.{
  UrbHeader, IsUrbHeader, CmdUnlink, encode_header, decode_header, decode_cmd_unlink,
  usbip_cmd_unlink,
}
use usbipd_darwin.Proto.Urb.RoundTrip.{decode_header-encode_header}
use usbipd_darwin.Proto.Urb.Exact.{IsCmdUnlink, unlink_tail, decode_cmd_unlink-unlink_tail}
use usbipd_darwin.Daemon.Conn.{Conn, read_exact, unexpected_eof}
use usbipd_darwin.Daemon.Urb.Requests.{
  Request, submit, unlink, disconnect, fail, read_unlink, dispatch, read_request,
}
use usbipd_darwin.Daemon.Urb.Framing.{read_request-submit, read_exact-append, length-encode_header}
use usbipd_darwin.Daemon.Urb.Reading.{
  IsRequest, request_bytes, requests_bytes, read_all, go_on, go_through, unlink_replies, unlinks,
  client_gone,
}
use usbipd_darwin.Daemon.Urb.Reading.Rounds.{
  read_all-stop, read_all-next, went, waits_on, unwritten, go_through-cases,
}
use usbipd_darwin.Daemon.Urb.Reading.Outcome.{unlinks-cons, unlink_replies-cons}

module _ (basic : UrbHeader) (cmd : CmdUnlink) (vb : IsUrbHeader basic) (vc : IsCmdUnlink cmd) where
  abbrev header_buf : List ℕ
  header_buf = encode_header basic [] ++ unlink_tail cmd

  header_part : decode_header (slice header_buf 0 20) ≡ ok basic
  header_part =
      rw
        (take-append 20 (encode_header basic []) (unlink_tail cmd)
          (sym (length-encode_header basic)))
        (rw append-nil at (decode_header-encode_header basic [] vb))

  unlink_part : decode_cmd_unlink (slice header_buf 20 48) ≡ ok cmd
  unlink_part =
      rw
        (
          drop-append 20 (encode_header basic []) (unlink_tail cmd)
              (sym (length-encode_header basic)),
          take-length_le 28 (unlink_tail cmd) (omega (arith, vc.1)),
        )
        (decode_cmd_unlink-unlink_tail cmd vc)

  read_request-unlink :
      (rest : List ℕ) (c : Conn)
      → basic.command ≡ usbip_cmd_unlink
      → c.input ≡ header_buf ++ rest
      → read_request basic.devid c ≡ (unlink basic cmd, record c { input = rest })
  unfolding read_request dispatch read_unlink
  read_request-unlink rest c hc e =
      let len : 48 ≡ length header_buf =
        rw length-append (omega (arith, length-encode_header basic, vc.1)) in
      ground (arith, read_exact-append 48 header_buf rest c len e, header_part, unlink_part)

read_request-request :
    (devid : ℕ) (q : Request) (rest : List ℕ) (c : Conn)
    → IsRequest devid q
    → c.input ≡ request_bytes q ++ rest
    → read_request devid c ≡ (q, record c { input = rest })
unfolding request_bytes
read_request-request devid (submit basic cmd payload) rest c (vb, ours, command, vc, hp, _) e =
    rw (sym ours) (read_request-submit basic cmd payload rest c vb vc command hp e)
read_request-request devid (unlink basic cmd) rest c (vb, ours, command, vc, _) e =
    rw (sym ours) (read_request-unlink basic cmd vb vc rest c command e)
read_request-request devid disconnect rest c fits e = absurd fits
read_request-request devid (fail x) rest c fits e = absurd fits

read_request-eof :
    (devid : ℕ) (c : Conn)
    → c.ending ≡ unexpected_eof
    → length c.input < 48
    → read_request devid c ≡ (disconnect, record c { input = [] })
unfolding read_request read_exact
read_request-eof devid c eof short = ground (arith, eof, short)

-- Submits and unlinks with fields of their widths, the loop's devid and the payloads that belong to
-- them, written one behind the other, where the client closes the stream behind them, or within the
-- next header; with fuel above one for each request, as many of the loop's waits that come back as there
-- are requests, and as many writes that work as there are unlinks: the loop goes on behind exactly those
-- requests, ends because the client is gone, and has written the RET_UNLINKs of the unlinks, in order.
pub read_all-requests_bytes :
    (devid fuel waits : ℕ) (rs : List Request) (stray : List ℕ) (c : Conn)
    → All (IsRequest devid) rs
    → c.input ≡ requests_bytes rs ++ stray
    → length stray < 48
    → c.ending ≡ unexpected_eof
    → length rs < fuel
    → length rs ≤ waits
    → unlinks rs ≤ c.writes_left
    → (d : Conn) × (read_all devid fuel waits c ≡ some (rs, client_gone, d))
      × (d.sent ≡ c.sent ++ unlink_replies rs)
unfolding requests_bytes unlink_replies unlinks go_through
read_all-requests_bytes devid zero waits rs stray c fits e short eof enough few works =
    absurd (omega arith)
read_all-requests_bytes devid (suc fuel) waits [] stray c fits e short eof enough few works =
    let c' : Conn = record c { input = [] } in
    (
      c',
      read_all-stop devid fuel waits c c' c' disconnect client_gone
          (read_request-eof devid c eof (omega (arith, ap length e))) refl,
      sym (append-nil c.sent),
    )
read_all-requests_bytes devid (suc fuel) waits (q ∷ rs) stray c (fit, fits) e short eof enough few
      works =
    let rest = requests_bytes rs ++ stray in
    let c' : Conn = record c { input = rest } in
    let read =
      read_request-request devid q rest c fit
        (e ∙ append_assoc (request_bytes q) (requests_bytes rs) stray) in
    elim (go_through-cases devid q waits c' fit) [
      | waits_on stops none_left ↦ absurd (omega (arith, none_left))
      | unwritten stops some_left none_works is_unlink ↦
          absurd (omega (arith, none_works, is_unlink, unlinks-cons q rs))
      | went d goes_on some_left input ending told split ↦
          let (last, all, sent) =
            read_all-requests_bytes devid fuel (waits - 1) rs stray d fits input short
              (ending ∙ eof) (omega arith) (omega arith)
              (omega (arith, split, unlinks-cons q rs)) in
          (
            last,
            read_all-next devid fuel waits c c' d q read goes_on ∙ ap (go_on q) all,
            sent
                ∙ ap (λ b. b ++ unlink_replies rs) told
                ∙ append_assoc c.sent (unlink_replies (q ∷ [])) (unlink_replies rs)
                ∙ ap (λ b. c.sent ++ b) (sym (unlink_replies-cons q rs)),
          )
    ]
