-- ===== src/Daemon/Urb/Reading/Outcome.antt =====
-- What comes of the loop: the requests that it read, what it wrote, and why it ended.
use usbipd_darwin.Common.{
  nat_eq, pos, sym, append-nil, ℕ, ◌-◌, ◌+◌, ◌*◌, ◌≤◌, ◌<◌, List, [], ◌∷◌, ◌++◌, ◌≡◌, refl, ap, ◌∙◌,
  arith, length, All, length-append, append_assoc, subst,
}
use usbipd_darwin.Proto.Urb.Messages.{encode_header, encode_cmd_submit}
use usbipd_darwin.Daemon.Conn.{Conn}
use usbipd_darwin.Proto.Urb.Replies.{write_ret_unlink}
use usbipd_darwin.Daemon.Urb.Requests.{
  Request, submit, unlink, disconnect, fail, write_unlink_reply, UrbError, read_urb_header,
  read_out_payload, decode_urb_header, decode_submit, decode_unlink, devid_mismatch,
  unknown_command,
}
use usbipd_darwin.Daemon.Urb.Reading.{
  IsRequest, request_bytes, requests_bytes, unlink_replies, unlinks, LoopEnd, client_gone, failed,
  held_up,
}
use usbipd_darwin.Daemon.Urb.Reading.Rounds.{Kept}
use usbipd_darwin.Daemon.Urb.Reading.Stops.{IsStop}

-- A request has at least its header.
pub request_bytes_long :
    (devid : ℕ) (r : Request) → IsRequest devid r → 48 ≤ length (request_bytes r)
unfolding request_bytes encode_header encode_cmd_submit
request_bytes_long devid (submit basic cmd payload) fits =
    omega (arith, length-append cmd.setup payload, fits.3.5)
request_bytes_long devid (unlink basic cmd) fits = omega (arith, fits.3.1)
request_bytes_long devid disconnect fits = absurd fits
request_bytes_long devid (fail e) fits = absurd fits

-- A RET_UNLINK that is not written is behind as many as could be.
abbrev pub IsFailure : ℕ → List Request → UrbError → Type 0
IsFailure writes rs (write_unlink_reply e) = unlinks rs ≡ writes
IsFailure writes rs e = Unit

-- Why the loop ends: the request that it is held up in is the first whose wait does not come back.
abbrev pub IsLoopEnd : ℕ → ℕ → ℕ → List Request → LoopEnd → Type 0
IsLoopEnd devid waits writes rs client_gone = length rs ≤ waits
IsLoopEnd devid waits writes rs (failed e) = IsFailure writes rs e × (length rs ≤ waits)
IsLoopEnd devid waits writes rs (held_up q) = IsRequest devid q × (length rs ≡ waits)

IsFailure-next :
    (writes k n : ℕ) (q : Request) (rs : List Request) (e : UrbError)
    → n ≡ unlinks (q ∷ rs)
    → writes + unlinks rs ≡ k + n
    → IsFailure k rs e
    → IsFailure writes (q ∷ rs) e
IsFailure-next writes k n q rs (write_unlink_reply e) same split at = omega arith
IsFailure-next writes k n q rs (read_urb_header e) same split at = tt
IsFailure-next writes k n q rs (read_out_payload e) same split at = tt
IsFailure-next writes k n q rs (decode_urb_header e) same split at = tt
IsFailure-next writes k n q rs (decode_submit e) same split at = tt
IsFailure-next writes k n q rs (decode_unlink e) same split at = tt
IsFailure-next writes k n q rs devid_mismatch same split at = tt
IsFailure-next writes k n q rs (unknown_command c) same split at = tt

pub unlinks-cons :
    (q : Request) (rs : List Request) → unlinks (q ∷ rs) ≡ unlinks (q ∷ []) + unlinks rs
unfolding unlinks
unlinks-cons (submit b d p) rs = omega arith
unlinks-cons (unlink b d) rs = omega arith
unlinks-cons disconnect rs = omega arith
unlinks-cons (fail e) rs = omega arith

pub unlink_replies-cons :
    (q : Request) (rs : List Request)
    → unlink_replies (q ∷ rs) ≡ unlink_replies (q ∷ []) ++ unlink_replies rs
unfolding unlink_replies
unlink_replies-cons (submit b d p) rs = refl
unlink_replies-cons (unlink b d) rs =
    ap (λ t. t ++ unlink_replies rs) (sym (append-nil (write_ret_unlink [] b.seqnum (pos 0))))
unlink_replies-cons disconnect rs = refl
unlink_replies-cons (fail e) rs = refl

-- A round in front of the others.
IsLoopEnd-next :
    (devid waits writes k : ℕ) (q : Request) (rs : List Request) (e : LoopEnd)
    → 0 < waits
    → writes ≡ k + unlinks (q ∷ [])
    → IsLoopEnd devid (waits - 1) k rs e
    → IsLoopEnd devid waits writes (q ∷ rs) e
IsLoopEnd-next devid waits writes k q rs client_gone some_left split at = omega arith
IsLoopEnd-next devid waits writes k q rs (failed e) some_left split (at, few) = (
  IsFailure-next writes k (unlinks (q ∷ rs)) q rs e refl (omega (arith, split, unlinks-cons q rs))
      at,
  omega (arith, few),
)
IsLoopEnd-next devid waits writes k q rs (held_up r) some_left split (fits, count) =
    (fits, omega (arith, count))

-- What came of a loop that has read the requests: their bytes, what they are, what was written for
-- them, and where and why it ended.
pub record IsRead (devid waits : ℕ) (c : Conn) (rs : List Request) (e : LoopEnd) (d : Conn)
    : Type 0 where
  pub each : All (IsRequest devid) rs
  pub rest : List ℕ
  pub exact : c.input ≡ requests_bytes rs ++ rest
  pub few : 48 * length rs ≤ length c.input
  pub sent : d.sent ≡ c.sent ++ unlink_replies rs
  pub writes : unlinks rs ≤ c.writes_left
  pub stops : IsStop c.ending rest e
  pub ends : IsLoopEnd devid waits c.writes_left rs e

pub IsRead-last :
    (devid waits : ℕ) (c d : Conn) (e : LoopEnd)
    → d.sent ≡ c.sent
    → IsStop c.ending c.input e
    → IsLoopEnd devid waits c.writes_left [] e
    → IsRead devid waits c [] e d
unfolding requests_bytes unlink_replies unlinks
IsRead-last devid waits c d e same stops at = record {
  each = tt;
  rest = c.input;
  exact = refl;
  few = omega arith;
  sent = same ∙ sym (append-nil c.sent);
  writes = omega arith;
  stops = stops;
  ends = at;
}

-- A round that was gone through, and then the others.
pub IsRead-next :
    (devid waits : ℕ) (c c' d : Conn) (q : Request) (rs : List Request) (e : LoopEnd) (last : Conn)
    → IsRequest devid q
    → c.input ≡ request_bytes q ++ c'.input
    → Kept c c'
    → 0 < waits
    → d.input ≡ c'.input
    → d.ending ≡ c'.ending
    → d.sent ≡ c'.sent ++ unlink_replies (q ∷ [])
    → c'.writes_left ≡ d.writes_left + unlinks (q ∷ [])
    → IsRead devid (waits - 1) d rs e last
    → IsRead devid waits c (q ∷ rs) e last
unfolding requests_bytes
IsRead-next devid waits c c' d q rs e last fits exact (sent, writes, same) some_left input ending
      told split r =
    record {
      each = (fits, r.each);
      rest = r.rest;
      exact = exact ∙ ap (λ b. request_bytes q ++ b) (sym input ∙ r.exact) ∙ simp append_assoc;
      few = omega (
        arith,
        r.few,
        request_bytes_long devid q fits,
        ap length exact,
        length-append (request_bytes q) c'.input,
        ap length input,
      );
      sent =
          r.sent
          ∙ ap (λ b. b ++ unlink_replies rs) (told ∙ ap (λ b. b ++ unlink_replies (q ∷ [])) sent)
          ∙ append_assoc c.sent (unlink_replies (q ∷ [])) (unlink_replies rs)
          ∙ ap (λ b. c.sent ++ b) (sym (unlink_replies-cons q rs));
      writes = omega (arith, r.writes, split, writes, unlinks-cons q rs);
      stops = subst (λ x. IsStop x r.rest e) (ending ∙ same) r.stops;
      ends =
          IsLoopEnd-next devid waits c.writes_left d.writes_left q rs e some_left
            (omega (arith, split, writes)) r.ends;
    }
