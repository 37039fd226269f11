-- ===== src/Daemon/Urb/Client.antt =====
-- A client's side of URB mode, as the protocol describes it: the replies that it reads from the stream.
use usbipd_darwin.Common.{
  ℕ, zero, suc, ◌≤◌, List, [], ◌∷◌, ◌++◌, Option, none, some, ◌≡◌, refl, ap, ap₂, ◌∙◌, arith,
  le→leb, Bool, true, false, ok, err, ◌==◌, nat_eq, ltb, leb, if◌then◌else◌, length, take, drop,
  take-append, drop-append, length-append, ℤ, pos, negsuc,
}
use usbipd_darwin.Common.Words.{IsU32, IsI32}
use usbipd_darwin.Proto.Urb.Messages.{
  UrbHeader, encode_header, decode_header, i32_at, urb_header_size, usbip_ret_submit,
  usbip_ret_unlink,
}
use usbipd_darwin.Proto.Urb.Replies.{
  encode_ret_submit, encode_ret_unlink, write_ret_submit, write_ret_unlink,
}
use usbipd_darwin.Proto.Urb.RoundTrip.{i32_be_round, decode_header-encode_header}
use usbipd_darwin.Daemon.Urb.Reply.{reply_record}

-- A RET_SUBMIT with its number, status, length and payload, and a RET_UNLINK with its number and status.
pub data ClientReply : Type 0 where
  of_submit : ℕ → ℤ → ℤ → List ℕ → ClientReply
  of_unlink : ℕ → ℤ → ClientReply

-- The bytes that follow a RET_SUBMIT: what it counts, when the transfer was into the host.
unfoldable pub following : Bool → ℤ → ℕ
following true (pos n) = n
following true (negsuc n) = 0
following false actual_length = 0

unfoldable pub with_payload : Bool → ℕ → ℤ → ℤ → List ℕ → Option (ClientReply × List ℕ)
unfolding following
with_payload into seqnum status actual_length buf =
    let n = following into actual_length in
    if leb n (length buf)
    then some (of_submit seqnum status actual_length (take n buf), drop n buf)
    else none

-- The client knows of each number whether its transfer is into the host.
unfoldable pub read_reply : (ℕ → Bool) → List ℕ → Option (ClientReply × List ℕ)
unfolding with_payload
read_reply into buf =
    if ltb (length buf) urb_header_size
    then none
    else elim (decode_header buf) as (λ _. Option (ClientReply × List ℕ)) [
      | err e ↦ none
      | ok h ↦
          if h.command == usbip_ret_submit
          then with_payload (into h.seqnum) h.seqnum (i32_at buf 20) (i32_at buf 24) (drop 48 buf)
          else if h.command == usbip_ret_unlink
          then some (of_unlink h.seqnum (i32_at buf 20), drop 48 buf)
          else none
    ]

cons_reply : ClientReply → Option (List ClientReply × List ℕ) → Option (List ClientReply × List ℕ)
cons_reply r none = none
cons_reply r (some (rs, rest)) = some (r ∷ rs, rest)

-- Read `n` replies, one behind the other.
unfoldable pub read_replies : (ℕ → Bool) → ℕ → List ℕ → Option (List ClientReply × List ℕ)
unfolding cons_reply
read_replies into zero buf = some ([], buf)
read_replies into (suc n) buf =
    elim (read_reply into buf) as (λ _. Option (List ClientReply × List ℕ)) [
      | none ↦ none
      | some (r, rest) ↦ cons_reply r (read_replies into n rest)
    ]

-- A reply in front of other bytes.
read_reply-submit :
    (into : ℕ → Bool) (buf : List ℕ) (h : UrbHeader) (payload rest : List ℕ)
    → 48 ≤ length buf
    → decode_header buf ≡ ok h
    → h.command ≡ usbip_ret_submit
    → drop 48 buf ≡ payload ++ rest
    → following (into h.seqnum) (i32_at buf 24) ≡ length payload
    → read_reply into buf ≡ some (of_submit h.seqnum (i32_at buf 20) (i32_at buf 24) payload, rest)
unfolding read_reply
read_reply-submit into buf h payload rest long header command behind counts =
    let fits : leb (length payload) (length (payload ++ rest)) ≡ true =
      le→leb (length payload) (length (payload ++ rest))
        (omega (arith, length-append payload rest)) in
    ground (
      arith,
      header,
      command,
      behind,
      counts,
      fits,
      take-append (length payload) payload rest refl,
      drop-append (length payload) payload rest refl,
    )

read_reply-unlink :
    (into : ℕ → Bool) (buf : List ℕ) (h : UrbHeader) (rest : List ℕ)
    → 48 ≤ length buf
    → decode_header buf ≡ ok h
    → h.command ≡ usbip_ret_unlink
    → drop 48 buf ≡ rest
    → read_reply into buf ≡ some (of_unlink h.seqnum (i32_at buf 20), rest)
unfolding read_reply
read_reply-unlink into buf h rest long header command behind =
    ground (arith, header, command, behind)

pub read_reply-write_ret_submit :
    (into : ℕ → Bool) (seqnum : ℕ) (status actual_length : ℤ) (payload rest : List ℕ)
    → IsU32 seqnum
    → IsI32 status
    → IsI32 actual_length
    → following (into seqnum) actual_length ≡ length payload
    → read_reply into
        (write_ret_submit [] seqnum (reply_record status actual_length) payload ++ rest)
      ≡ some (of_submit seqnum status actual_length payload, rest)
unfolding write_ret_submit encode_ret_submit encode_header reply_record
read_reply-write_ret_submit into seqnum status actual_length payload rest hq hs ha counts =
    let h : UrbHeader = record {
      command = usbip_ret_submit;
      seqnum = seqnum;
      devid = 0;
      direction = 0;
      ep = 0;
    } in
    let buf = write_ret_submit [] seqnum (reply_record status actual_length) payload ++ rest in
    let first : i32_at buf 20 ≡ status = i32_be_round status hs in
    let second : i32_at buf 24 ≡ actual_length = i32_be_round actual_length ha in
    let read =
      read_reply-submit into buf h payload rest (omega arith)
        (decode_header-encode_header h (drop 20 buf)
          (omega arith, hq, omega arith, omega arith, omega arith))
        refl refl (ap (following (into seqnum)) second ∙ counts) in
    read ∙ ap₂ (λ a b. some (of_submit seqnum a b payload, rest)) first second

pub read_reply-write_ret_unlink :
    (into : ℕ → Bool) (seqnum : ℕ) (status : ℤ) (rest : List ℕ)
    → IsU32 seqnum
    → IsI32 status
    → read_reply into (write_ret_unlink [] seqnum status ++ rest)
      ≡ some (of_unlink seqnum status, rest)
unfolding write_ret_unlink encode_ret_unlink encode_header
read_reply-write_ret_unlink into seqnum status rest hq hs =
    let h : UrbHeader = record {
      command = usbip_ret_unlink;
      seqnum = seqnum;
      devid = 0;
      direction = 0;
      ep = 0;
    } in
    let buf = write_ret_unlink [] seqnum status ++ rest in
    let first : i32_at buf 20 ≡ status = i32_be_round status hs in
    read_reply-unlink into buf h rest (omega arith)
      (decode_header-encode_header h (drop 20 buf)
        (omega arith, hq, omega arith, omega arith, omega arith))
      refl refl
    ∙ ap (λ a. some (of_unlink seqnum a, rest)) first
