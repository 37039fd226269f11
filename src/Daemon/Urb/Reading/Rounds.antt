-- ===== src/Daemon/Urb/Reading/Rounds.antt =====
-- One round of the loop: what it reads, and what it then does itself.
use usbipd_darwin.Common.{
  Result-cases, Bool-cases, leb, ltb, slice, not, ◌&&◌, nat_eq, Nat-cases, pos, none, sym,
  append-nil, ℕ, zero, suc, ◌-◌, ◌+◌, ◌<◌, List, [], ◌∷◌, ◌++◌, some, ◌≡◌, refl, ap, arith, inl,
  inr, length,
}
use usbipd_darwin.Proto.Urb.Messages.{UrbHeader, decode_header, decode_cmd_submit}
use usbipd_darwin.Daemon.Conn.{Conn, write_failed, read_exact}
use usbipd_darwin.Proto.Urb.Replies.{write_ret_unlink}
use usbipd_darwin.Daemon.Urb.Requests.{
  Request, submit, unlink, disconnect, fail, read_request, dispatch, read_submit, buffer_length,
  dir_in, write_unlink_reply,
}
use usbipd_darwin.Daemon.Urb.Reading.{
  IsRequest, read_all, go_on, go_through, unlink_replies, unlinks, LoopEnd, failed, held_up,
}

pub read_all-stop :
    (devid fuel waits : ℕ) (c c' d : Conn) (q : Request) (e : LoopEnd)
    → read_request devid c ≡ (q, c')
    → go_through q waits c' ≡ (some e, d)
    → read_all devid (suc fuel) waits c ≡ some ([], e, d)
unfolding read_all
read_all-stop devid fuel waits c c' d q e same stops = ground (arith, same, stops)

pub read_all-next :
    (devid fuel waits : ℕ) (c c' d : Conn) (q : Request)
    → read_request devid c ≡ (q, c')
    → go_through q waits c' ≡ (none, d)
    → read_all devid (suc fuel) waits c ≡ go_on q (read_all devid fuel (waits - 1) d)
unfolding read_all
read_all-next devid fuel waits c c' d q same goes = ground (arith, same, goes)

-- Reading leaves what was written, how many writes work, and how the stream ends.
abbrev pub Kept : Conn → Conn → Type 0
Kept c c' = (c'.sent ≡ c.sent) × (c'.writes_left ≡ c.writes_left) × (c'.ending ≡ c.ending)

read_exact-Kept : (n : ℕ) (c : Conn) → Kept c (read_exact n c).1
unfolding read_exact
read_exact-Kept n c = elim (Bool-cases (leb n (length c.input))) [
  | inl enough ↦ (ground (arith, enough), ground (arith, enough), ground (arith, enough))
  | inr short ↦ (ground (arith, short), ground (arith, short), ground (arith, short))
]

read_submit-Kept :
    (basic : UrbHeader) (header_buf : List ℕ) (c : Conn) → Kept c (read_submit basic header_buf c).1
unfolding read_submit
read_submit-Kept basic header_buf c =
    elim (Result-cases (decode_cmd_submit (slice header_buf 20 48))) [
      | inr (e, bad) ↦ (ground (arith, bad), ground (arith, bad), ground (arith, bad))
      | inl (cmd, fine) ↦
          let (sent, writes, ending) = read_exact-Kept (buffer_length cmd) c in
          elim (Bool-cases (not (dir_in basic) && ltb 0 (buffer_length cmd))) [
            | inl out ↦ (
              ground (arith, fine, out, sent),
              ground (arith, fine, out, writes),
              ground (arith, fine, out, ending),
            )
            | inr none_out ↦ (
              ground (arith, fine, none_out),
              ground (arith, fine, none_out),
              ground (arith, fine, none_out),
            )
          ]
    ]

dispatch-Kept :
    (devid : ℕ) (basic : UrbHeader) (header_buf : List ℕ) (c : Conn)
    → Kept c (dispatch devid basic header_buf c).1
unfolding dispatch
dispatch-Kept devid basic header_buf c =
    let (sent, writes, ending) = read_submit-Kept basic header_buf c in
    (ground (arith, sent), ground (arith, writes), ground (arith, ending))

pub read_request-Kept : (devid : ℕ) (c : Conn) → Kept c (read_request devid c).1
unfolding read_request
read_request-Kept devid c =
    let (sent, writes, ending) = read_exact-Kept 48 c in
    let c' = (read_exact 48 c).1 in
    elim (Result-cases (read_exact 48 c).0) [
      | inr (e, bad) ↦
          (ground (arith, bad, sent), ground (arith, bad, writes), ground (arith, bad, ending))
      | inl (buf, fine) ↦ elim (Result-cases (decode_header (slice buf 0 20))) [
        | inr (e, bad) ↦ (
          ground (arith, fine, bad, sent),
          ground (arith, fine, bad, writes),
          ground (arith, fine, bad, ending),
        )
        | inl (basic, decoded) ↦
            let (sent', writes', ending') = dispatch-Kept devid basic buf c' in
            (
              ground (arith, fine, decoded, sent, sent'),
              ground (arith, fine, decoded, writes, writes'),
              ground (arith, fine, decoded, ending, ending'),
            )
      ]
    ]

-- What the loop does for a request that it was sent.
pub data Gone (q : Request) (waits : ℕ) (c : Conn) : Type 0 where
  went :
      (d : Conn)
      → go_through q waits c ≡ (none, d)
      → 0 < waits
      → d.input ≡ c.input
      → d.ending ≡ c.ending
      → d.sent ≡ c.sent ++ unlink_replies (q ∷ [])
      → c.writes_left ≡ d.writes_left + unlinks (q ∷ [])
      → Gone q waits c
  waits_on : go_through q waits c ≡ (some (held_up q), c) → waits ≡ 0 → Gone q waits c
  unwritten :
      go_through q waits c ≡ (some (failed (write_unlink_reply write_failed)), c)
      → 0 < waits
      → c.writes_left ≡ 0
      → unlinks (q ∷ []) ≡ 1
      → Gone q waits c

pub go_through-cases :
    (devid : ℕ) (q : Request) (waits : ℕ) (c : Conn) → IsRequest devid q → Gone q waits c
unfolding go_through unlink_replies unlinks
go_through-cases devid disconnect waits c fits = absurd fits
go_through-cases devid (fail e) waits c fits = absurd fits
go_through-cases devid (submit b d p) zero c fits = waits_on refl refl
go_through-cases devid (submit b d p) (suc waits) c fits =
    went c refl (omega arith) refl refl (sym (append-nil c.sent)) (omega arith)
go_through-cases devid (unlink b d) zero c fits = waits_on refl refl
go_through-cases devid (unlink b d) (suc waits) c fits = elim (Nat-cases c.writes_left) [
  | inl none_left ↦ unwritten (ground (arith, none_left)) (omega arith) none_left refl
  | inr (writes, some_left) ↦
      let reply = write_ret_unlink [] b.seqnum (pos 0) in
      went (record c { sent = c.sent ++ reply; writes_left = writes }) (ground (arith, some_left))
        (omega arith) refl refl (ap (λ t. c.sent ++ t) (sym (append-nil reply)))
        (omega (arith, some_left))
]
