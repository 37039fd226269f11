-- ===== src/Daemon/Urb/Writer/Cut.antt =====
-- An abort that hits a write.
use usbipd_darwin.Common.{
  ℕ, zero, suc, ◌+◌, ◌≤◌, List, [], ◌∷◌, ◌++◌, none, some, Bool, true, false, ◌≡◌, ◌≢◌, inl, inr,
  refl, ap, sym, ◌∙◌, arith, append-nil, length, length-append, length-take, length-drop, drop, ltb,
  nat_eq, ◌==◌, Bool-cases, Option-cases, Result-cases, ℤ,
}
use usbipd_darwin.Common.Map
use usbipd_darwin.Host.Transfer.Calls.{Answers}
use usbipd_darwin.Proto.Urb.Messages.{decode_header, i32_at, encode_header, usbip_ret_submit}
use usbipd_darwin.Proto.Urb.Replies.{write_ret_unlink, encode_ret_unlink}
use usbipd_darwin.Daemon.Urb.Reply.{reply_fits}
use usbipd_darwin.Daemon.Urb.Client.{
  ClientReply, of_submit, of_unlink, following, with_payload, read_reply, read_replies,
}
use usbipd_darwin.Daemon.Urb.Stream.{
  Submitted, Handled, submitted, unlinked, IsHandled, handled_bytes, answer,
}
use usbipd_darwin.Daemon.Urb.Writer.{
  Wire, writing, new, arrive, take_lock, push, release, cut, arrives, locks, pushes, releases,
  is_cut, Run, here, then_step,
}

-- The bytes that a reply takes.
unfoldable pub size : ClientReply → ℕ
size (of_submit seqnum status actual_length payload) = 48 + length payload
size (of_unlink seqnum status) = 48

unfoldable pub sizes : List ClientReply → ℕ
unfolding size
sizes [] = 0
sizes (r ∷ rs) = size r + sizes rs

with_payload-size :
    (into : Bool) (seqnum : ℕ) (status actual_length : ℤ) (buf : List ℕ) (r : ClientReply)
    (rest : List ℕ)
    → with_payload into seqnum status actual_length buf ≡ some (r, rest)
    → size r + length rest ≡ 48 + length buf
unfolding with_payload size
with_payload-size into seqnum status actual_length buf r rest h =
    let n : ℕ = following into actual_length in ground (arith, length-take n buf, length-drop n buf)

read_reply-size :
    (into : ℕ → Bool) (buf : List ℕ) (r : ClientReply) (rest : List ℕ)
    → read_reply into buf ≡ some (r, rest)
    → size r + length rest ≡ length buf
unfolding read_reply size
read_reply-size into buf r rest h = elim (Bool-cases (ltb (length buf) 48)) [
  | inl short ↦ absurd (ground (arith, h, short))
  | inr long ↦ elim (Result-cases (decode_header buf)) [
    | inr (e, failed) ↦ absurd (ground (arith, h, long, failed))
    | inl (hd, fine) ↦ elim (Bool-cases (hd.command == usbip_ret_submit)) [
      | inl submit ↦
          let counted =
            with_payload-size (into hd.seqnum) hd.seqnum (i32_at buf 20) (i32_at buf 24)
              (drop 48 buf) r rest (ground (arith, h, long, fine, submit)) in
          ground (arith, counted, long, length-drop 48 buf)
      | inr other ↦ ground (arith, h, long, fine, other, length-drop 48 buf)
    ]
  ]
]

read_replies-size :
    (into : ℕ → Bool) (n : ℕ) (buf : List ℕ) (rs : List ClientReply) (rest : List ℕ)
    → read_replies into n buf ≡ some (rs, rest)
    → sizes rs + length rest ≡ length buf
unfolding read_replies sizes
read_replies-size into zero buf rs rest h = ground (arith, h)
read_replies-size into (suc n) buf rs rest h = elim (Option-cases (read_reply into buf)) [
  | inl failed ↦ absurd (ground (arith, h, failed))
  | inr ((r, behind), read) ↦ elim (Option-cases (read_replies into n behind)) [
    | inl failed ↦ absurd (ground (arith, h, read, failed))
    | inr ((qs, last), later) ↦ ground (
      arith,
      h,
      read,
      later,
      read_reply-size into buf r behind read,
      read_replies-size into n behind qs last later,
    )
  ]
]

length-handled_bytes :
    (nusb : Answers) (h : Handled) → length (handled_bytes nusb h) ≡ size (answer nusb h)
unfolding handled_bytes answer size write_ret_unlink encode_ret_unlink encode_header
length-handled_bytes nusb (submitted s) = (reply_fits s.basic s.cmd s.out_payload _).2
length-handled_bytes nusb (unlinked seqnum) = refl

length_pos : (xs : List ℕ) → xs ≢ [] → 1 ≤ length xs
length_pos [] ne = absurd (ne refl)
length_pos (x ∷ xs) ne = omega arith

-- What the client cannot read from a reply that was cut, with an unlink's behind it.
cut_unread :
    (nusb : Answers) (into : ℕ → Bool) (s : Submitted) (seqnum : ℕ) (front rest : List ℕ)
    → handled_bytes nusb (submitted s) ≡ front ++ rest
    → front ≢ []
    → rest ≢ []
    → let bytes = front ++ handled_bytes nusb (unlinked seqnum) in
      (read_replies into 1 bytes ≢ some (answer nusb (unlinked seqnum) ∷ [], []))
      × (read_replies into 2 bytes
          ≢ some (answer nusb (submitted s) ∷ answer nusb (unlinked seqnum) ∷ [], []))
unfolding sizes
cut_unread nusb into s seqnum front rest parts some_front some_rest =
    let bytes = front ++ handled_bytes nusb (unlinked seqnum) in
    let whole = length-handled_bytes nusb (submitted s) in
    let whole_unlink = length-handled_bytes nusb (unlinked seqnum) in
    let all = length-append front (handled_bytes nusb (unlinked seqnum)) in
    let split = ap length parts ∙ length-append front rest in
    (
      λ read. absurd (
          omega (
            arith,
            read_replies-size into 1 bytes _ [] read,
            all,
            whole_unlink,
            length_pos front some_front,
          )),
      λ read. absurd (
          omega (
            arith,
            read_replies-size into 2 bytes _ [] read,
            all,
            whole,
            whole_unlink,
            split,
            length_pos rest some_rest,
          )),
    )

-- A task that is aborted inside `write_all`, as an unlink of its request may do. For every transfer and
-- unlink with fields of their widths, where the client knows the direction of the transfer, and every
-- place inside the transfer's reply: there is a run behind which nobody is writing, no write has failed
-- and the RET_UNLINK is written, and the stream is the first part of the reply and then the RET_UNLINK;
-- of that a client reads neither the RET_UNLINK alone nor both replies.
pub Run-cut :
    (nusb : Answers) (into : ℕ → Bool) (s : Submitted) (seqnum : ℕ) (front rest : List ℕ)
    → IsHandled into (submitted s)
    → IsHandled into (unlinked seqnum)
    → handled_bytes nusb (submitted s) ≡ front ++ rest
    → front ≢ []
    → rest ≢ []
    → (w : Wire) × Run nusb into true new w
      × (w.lock ≡ none)
      × (w.broken ≡ false)
      × (w.log ≡ unlinked seqnum ∷ [])
      × (w.sent ≡ front ++ handled_bytes nusb (unlinked seqnum))
      × (read_replies into 1 w.sent ≢ some (answer nusb (unlinked seqnum) ∷ [], []))
      × (read_replies into 2 w.sent
          ≢ some (answer nusb (submitted s) ∷ answer nusb (unlinked seqnum) ∷ [], []))
unfolding new arrive take_lock push release cut Map.get Map.insert
Run-cut nusb into s seqnum front rest fits fits_unlink parts some_front some_rest =
    let a = submitted s in
    let b = unlinked seqnum in
    let w1 : Wire = arrive 1 b (arrive 0 a new) in
    let w2 : Wire = take_lock 0 a (handled_bytes nusb a) w1 in
    let w3 : Wire = cut 0 a (push 0 a [] front rest w2) in
    let w4 : Wire = take_lock 1 b (handled_bytes nusb b) w3 in
    let w5 : Wire = release 1 b (push 1 b [] (handled_bytes nusb b) [] w4) in
    let r1 : Run nusb into true new w1 =
      then_step (then_step here (arrives new 0 a refl fits)) (arrives _ 1 b refl fits_unlink) in
    let r2 : Run nusb into true new w2 = then_step r1 (locks w1 0 a refl refl) in
    let r3 : Run nusb into true new w3 =
      then_step
        (then_step r2 (pushes w2 0 a [] front rest (ap (λ t. some (writing a [] t)) parts) refl))
        (is_cut _ 0 s front rest refl refl) in
    let r4 : Run nusb into true new w4 = then_step r3 (locks w3 1 b refl refl) in
    let r5 : Run nusb into true new w5 =
      then_step
        (then_step r4 (
          pushes w4 1 b [] (handled_bytes nusb b) []
            (ap (λ t. some (writing b [] t)) (sym (append-nil (handled_bytes nusb b)))) refl))
        (releases _ 1 b (handled_bytes nusb b) refl) in
    let (unread, unread_both) =
      cut_unread nusb into s seqnum front rest parts some_front some_rest in
    (w5, r5, refl, refl, refl, refl, unread, unread_both)
