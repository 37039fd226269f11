-- ===== src/Daemon/Urb/Stream.antt =====
-- What a client reads from the replies of `run_submit` and `handle_cmd_unlink` of
-- crates/usbipd/src/daemon.rs, one behind the other.
use usbipd_darwin.Common.{
  ℕ, List, [], ◌∷◌, ◌++◌, some, ◌≡◌, refl, ap, ◌∙◌, arith, inl, inr, Bool, Bool-cases, map, All,
  append_assoc, nat_eq, length, pos,
}
use usbipd_darwin.Common.Words.{IsU32, IsI32}
use usbipd_darwin.Host.Transfer.Calls.{Answers, Use}
use usbipd_darwin.Host.Transfer.Bounds.{Counts}
use usbipd_darwin.Proto.Urb.Messages.{UrbHeader, CmdSubmit}
use usbipd_darwin.Proto.Urb.Replies.{write_ret_unlink}
use usbipd_darwin.Daemon.Urb.Requests.{buffer_length, dir_in}
use usbipd_darwin.Daemon.Urb.Reply.{
  Transfer, transfer_result, outcome, outcome-IsI32, reply_bytes, reply_fits,
}
use usbipd_darwin.Daemon.Urb.Blocking.{carry_out, carry_out-exact}
use usbipd_darwin.Daemon.Urb.Client.{
  ClientReply, of_submit, of_unlink, following, read_reply, read_replies,
  read_reply-write_ret_submit, read_reply-write_ret_unlink,
}

-- A transfer that has been carried out, on a device in whatever state, and an unlink that was handled.
pub record Submitted : Type 0 where
  pub basic : UrbHeader
  pub cmd : CmdSubmit
  pub out_payload : List ℕ
  pub device : Use

pub data Handled : Type 0 where
  submitted : Submitted → Handled
  unlinked : ℕ → Handled

-- The requests as their fields allow, where the client knows the direction of each.
abbrev pub IsHandled : (ℕ → Bool) → Handled → Type 0
IsHandled into (submitted s) =
    IsU32 s.basic.seqnum
    × IsI32 s.cmd.transfer_buffer_length
    × (into s.basic.seqnum ≡ dir_in s.basic)
IsHandled into (unlinked seqnum) = IsU32 seqnum

module _ (nusb : Answers) where
  abbrev transfer_of : Submitted → Transfer
  transfer_of s = (carry_out nusb s.basic s.cmd s.out_payload s.device).0

  -- The bytes that the daemon writes.
  unfoldable pub handled_bytes : Handled → List ℕ
  unfolding carry_out
  handled_bytes (submitted s) = reply_bytes s.basic s.cmd s.out_payload (transfer_of s)
  handled_bytes (unlinked seqnum) = write_ret_unlink [] seqnum (pos 0)

  unfoldable pub stream : List Handled → List ℕ
  unfolding handled_bytes
  stream [] = []
  stream (h ∷ hs) = handled_bytes h ++ stream hs

  -- What came of it.
  unfoldable pub answer : Handled → ClientReply
  unfolding carry_out
  answer (submitted s) =
      let (status, actual_length, payload) =
        outcome (dir_in s.basic) (buffer_length s.cmd)
          (transfer_result (dir_in s.basic) s.out_payload (transfer_of s)) in
      of_submit s.basic.seqnum status actual_length payload
  answer (unlinked seqnum) = of_unlink seqnum (pos 0)

  -- The length in a reply is that of the bytes that follow it, as the client counts them.
  following-payload :
      (s : Submitted)
      → Counts nusb
      → IsI32 s.cmd.transfer_buffer_length
      → let (status, actual_length, payload) =
          outcome
            (dir_in s.basic)
            (buffer_length s.cmd)
            (transfer_result (dir_in s.basic) s.out_payload (transfer_of s)) in
        following (dir_in s.basic) actual_length ≡ length payload
  unfolding following
  following-payload s counts fits =
      let (short, status_cases, _) = reply_fits s.basic s.cmd s.out_payload (transfer_of s) in
      elim (Bool-cases (dir_in s.basic)) [
        | inr out ↦ ground (arith, out, short)
        | inl into ↦ elim status_cases [
          | inr (_, nothing, empty) ↦ ground (arith, into, nothing, empty)
          | inl fine ↦
              elim (carry_out-exact nusb s.basic s.cmd s.out_payload s.device counts into fits) [
                | inl (_, exact, _) ↦ ground (arith, into, exact)
                | inr (inl broken) ↦ absurd (ground (arith, into, fine, broken))
                | inr (inr (_, over)) ↦ absurd (ground (arith, into, fine, over))
              ]
        ]
      ]

  read_reply-handled :
      (into : ℕ → Bool) (h : Handled) (rest : List ℕ)
      → Counts nusb
      → IsHandled into h
      → read_reply into (handled_bytes h ++ rest) ≡ some (answer h, rest)
  unfolding handled_bytes answer reply_bytes
  read_reply-handled into (unlinked seqnum) rest counts fits =
      read_reply-write_ret_unlink into seqnum (pos 0) rest fits (omega arith)
  read_reply-handled into (submitted s) rest counts (hq, ht, knows) =
      let o =
        outcome (dir_in s.basic) (buffer_length s.cmd)
          (transfer_result (dir_in s.basic) s.out_payload (transfer_of s)) in
      let (hs, ha) =
        outcome-IsI32 (dir_in s.basic) (buffer_length s.cmd)
          (transfer_result (dir_in s.basic) s.out_payload (transfer_of s)) in
      read_reply-write_ret_submit into s.basic.seqnum o.0 o.1 o.2 rest hq hs ha
        (ap (λ b. following b o.1) knows ∙ following-payload s counts ht)

  -- The replies of any requests, carried out on the device in whatever states and written in any order:
  -- where nusb hands over as many bytes as it counts, and the client knows of each number whether its
  -- transfer is into the host, it reads from the stream exactly those replies, with their payloads,
  -- and is left with what follows them.
  pub read_replies-stream :
      (into : ℕ → Bool) (hs : List Handled) (rest : List ℕ)
      → Counts nusb
      → All (IsHandled into) hs
      → read_replies into (length hs) (stream hs ++ rest) ≡ some (map answer hs, rest)
  unfolding read_replies stream
  read_replies-stream into [] rest counts fits = refl
  read_replies-stream into (h ∷ hs) rest counts (fit, fits) = rw append_assoc (
      ground (
        arith,
        read_reply-handled into h (stream hs ++ rest) counts fit,
        read_replies-stream into hs rest counts fits,
      ))
