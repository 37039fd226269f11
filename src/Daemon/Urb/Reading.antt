-- ===== src/Daemon/Urb/Reading.antt =====
-- The reading of `urb_loop` of crates/usbipd/src/daemon.rs over the whole stream: the requests that
-- it goes on behind, what it does itself for each, and how it ends.
use usbipd_darwin.Common.{
  ℕ, zero, suc, ◌-◌, pos, ◌+◌, ◌≤◌, ◌<◌, List, [], ◌∷◌, ◌++◌, Option, none, some, Bool, true, false,
  not, ◌&&◌, ◌≡◌, refl, ap, sym, ◌∙◌, arith, ok, err, Result-cases, Bool-cases, inl, inr, ◌⊎◌,
  nat_eq, ◌==◌, ltb, leb, if◌then◌else◌, length, take, drop, slice, All, All-take, All-drop,
  take-drop, take-length_le, length-append, length-take, length-drop, append_assoc, append-nil,
  subst,
}
use usbipd_darwin.Common.Words.{IsBytes, IsU8}
use usbipd_darwin.Proto.Urb.Messages.{
  UrbHeader, IsUrbHeader, CmdSubmit, IsCmdSubmit, CmdUnlink, encode_header, encode_cmd_submit,
  decode_header, decode_cmd_submit, decode_cmd_unlink, usbip_cmd_submit, usbip_cmd_unlink,
}
use usbipd_darwin.Proto.Urb.Replies.{write_ret_unlink}
use usbipd_darwin.Proto.Urb.Exact.{
  IsCmdUnlink, unlink_tail, decode_header_exact, decode_cmd_submit_exact, decode_cmd_unlink_exact,
}
use usbipd_darwin.Daemon.Conn.{Conn, write_all, read_exact, unexpected_eof, read_failed}
use usbipd_darwin.Daemon.Urb.Requests.{
  Request, UrbError, submit, unlink, disconnect, fail, write_unlink_reply, decode_submit,
  decode_unlink, read_out_payload, buffer_length, dir_in, read_submit, read_unlink, dispatch,
  read_request,
}
use usbipd_darwin.Daemon.Urb.Framing.{submit_bytes, HasPayload}
pub mod Exact
pub mod Rounds
pub mod Stops
pub mod Outcome
pub mod Total
pub mod RoundTrip

-- What the loop goes on behind, with the fields of their widths and the bytes it was sent as; the end
-- has no bytes of its own.
abbrev pub IsRequest : ℕ → Request → Type 0
IsRequest devid (submit basic cmd payload) =
    IsUrbHeader basic
    × (basic.devid ≡ devid)
    × (basic.command ≡ usbip_cmd_submit)
    × IsCmdSubmit cmd
    × HasPayload basic cmd payload
    × IsBytes payload
IsRequest devid (unlink basic cmd) =
    IsUrbHeader basic
    × (basic.devid ≡ devid)
    × (basic.command ≡ usbip_cmd_unlink)
    × IsCmdUnlink cmd
    × IsBytes cmd.padding
IsRequest devid disconnect = ⊥
IsRequest devid (fail e) = ⊥

-- What the reading itself ends with: all but a RET_UNLINK that cannot be written.
abbrev pub IsEnd : Request → Type 0
IsEnd (submit _ _ _) = ⊥
IsEnd (unlink _ _) = ⊥
IsEnd disconnect = Unit
IsEnd (fail (write_unlink_reply e)) = ⊥
IsEnd (fail e) = Unit

unfoldable pub request_bytes : Request → List ℕ
request_bytes (submit basic cmd payload) = submit_bytes basic cmd payload
request_bytes (unlink basic cmd) = encode_header basic [] ++ unlink_tail cmd
request_bytes disconnect = []
request_bytes (fail e) = []

unfoldable pub requests_bytes : List Request → List ℕ
requests_bytes [] = []
requests_bytes (r ∷ rs) = request_bytes r ++ requests_bytes rs

-- How the loop ends: the client is gone, an error, or a wait that does not come back, for a permit or
-- for the writer, with the request that it waits in.
pub data LoopEnd : Type 0 where
  client_gone : LoopEnd
  failed : UrbError → LoopEnd
  held_up : Request → LoopEnd

-- What the loop itself does behind the reading: it waits for a permit, or it writes the RET_UNLINK.
-- `waits` is how many more of its waits come back, and `none` is the next round.
unfoldable pub go_through : Request → ℕ → Conn → Option LoopEnd × Conn
unfolding write_all
go_through disconnect waits c = (some client_gone, c)
go_through (fail e) waits c = (some (failed e), c)
go_through (submit basic cmd payload) zero c = (some (held_up (submit basic cmd payload)), c)
go_through (submit basic cmd payload) (suc waits) c = (none, c)
go_through (unlink basic cmd) zero c = (some (held_up (unlink basic cmd)), c)
go_through (unlink basic cmd) (suc waits) c =
    let (r, c') = write_all (write_ret_unlink [] basic.seqnum (pos 0)) c in
    elim r as (λ _. Option LoopEnd × Conn) [
      | ok done ↦ (none, c')
      | err e ↦ (some (failed (write_unlink_reply e)), c')
    ]

abbrev pub go_on :
    Request → Option (List Request × LoopEnd × Conn) → Option (List Request × LoopEnd × Conn)
go_on r none = none
go_on r (some (rs, e, c)) = some (r ∷ rs, e, c)

-- The loop, with `none` where the fuel is used up. What is written to the connection here is the loop's
-- own part.
unfoldable pub read_all : ℕ → ℕ → ℕ → Conn → Option (List Request × LoopEnd × Conn)
unfolding read_request go_through
read_all devid zero waits c = none
read_all devid (suc fuel) waits c =
    let (r, c') = read_request devid c in
    let (stops, d) = go_through r waits c' in
    let rest = read_all devid fuel (waits - 1) d in
    elim stops as (λ _. Option (List Request × LoopEnd × Conn)) [
      | some e ↦ some ([], e, d)
      | none ↦ go_on r rest
    ]

-- The RET_UNLINKs of the requests, and how many they are.
unfoldable pub unlink_replies : List Request → List ℕ
unlink_replies [] = []
unlink_replies (submit _ _ _ ∷ rs) = unlink_replies rs
unlink_replies (unlink basic _ ∷ rs) = write_ret_unlink [] basic.seqnum (pos 0) ++ unlink_replies rs
unlink_replies (disconnect ∷ rs) = unlink_replies rs
unlink_replies (fail _ ∷ rs) = unlink_replies rs

unfoldable pub unlinks : List Request → ℕ
unlinks [] = 0
unlinks (submit _ _ _ ∷ rs) = unlinks rs
unlinks (unlink _ _ ∷ rs) = suc (unlinks rs)
unlinks (disconnect ∷ rs) = unlinks rs
unlinks (fail _ ∷ rs) = unlinks rs
