-- ===== src/Tests/Writer.antt =====
-- The replies of crates/usbipd/src/daemon.rs and their shared writer.
use usbipd_darwin.Common.{
  ℕ, ◌≤◌, ◌≡◌, ◌≢◌, refl, ap, sym, arith, List, [], ◌∷◌, ◌++◌, some, none, Bool, true, false,
  length, map, take, drop, take-drop, length-take, length-drop, append-nil, nat_eq, ◌==◌,
}
use usbipd_darwin.Common.Map
use usbipd_darwin.Daemon.Urb.Reply.{reply_fits}
use usbipd_darwin.Daemon.Urb.Blocking.{carry_out}
use usbipd_darwin.Daemon.Urb.Client.{read_replies}
use usbipd_darwin.Daemon.Urb.Stream.{Submitted, submitted, unlinked, handled_bytes, stream, answer}
use usbipd_darwin.Daemon.Urb.Writer.{
  Wire, writing, new, arrive, take_lock, push, release, arrives, locks, pushes, releases, Run, here,
  then_step,
}
use usbipd_darwin.Daemon.Urb.Writer.Whole.{Run-read_replies}
use usbipd_darwin.Daemon.Urb.Writer.Cut.{Run-cut}
use usbipd_darwin.Tests.Samples.{submit_command}
use usbipd_darwin.Tests.Transfer.{stick_answers, stick_answers_count, fresh, in_header}

-- A transfer of two bytes from the stick, with the number 42.
abbrev two_bytes_in : Submitted
two_bytes_in = record { basic = in_header; cmd = submit_command; out_payload = []; device = fresh }

abbrev into : ℕ → Bool
into seqnum = seqnum == 42

abbrev two_bytes_reply : List ℕ
two_bytes_reply = handled_bytes stick_answers (submitted two_bytes_in)

-- It is written in two parts, and then the reply of an unlink.
abbrev first_part : Wire
first_part =
    push 0 (submitted two_bytes_in) [] (take 20 two_bytes_reply) (drop 20 two_bytes_reply)
      (take_lock 0 (submitted two_bytes_in) two_bytes_reply (arrive 0 (submitted two_bytes_in) new))

abbrev both_parts : Wire
both_parts =
    push 0 (submitted two_bytes_in) (take 20 two_bytes_reply) (drop 20 two_bytes_reply) []
      first_part

abbrev wire : Wire
wire = release 0 (submitted two_bytes_in) both_parts

wire-Run : Run stick_answers into false new wire
unfolding new arrive take_lock push release Map.get Map.insert
wire-Run =
    let a = submitted two_bytes_in in
    let w0 : Wire = arrive 0 a new in
    let w1 : Wire = take_lock 0 a two_bytes_reply w0 in
    let r0 : Run stick_answers into false new w0 =
      then_step here (arrives new 0 a refl (omega arith, omega arith, refl)) in
    let r1 : Run stick_answers into false new w1 = then_step r0 (locks w0 0 a refl refl) in
    let r2 : Run stick_answers into false new first_part = then_step r1 (
      pushes w1 0 a [] (take 20 two_bytes_reply) (drop 20 two_bytes_reply)
        (ap (λ t. some (writing a [] t)) (sym (take-drop 20 two_bytes_reply))) refl) in
    let r3 : Run stick_answers into false new both_parts = then_step r2 (
      pushes first_part 0 a (take 20 two_bytes_reply) (drop 20 two_bytes_reply) []
        (ap (λ t. some (writing a (take 20 two_bytes_reply) t))
          (sym (append-nil (drop 20 two_bytes_reply))))
        refl) in
    then_step r3 (releases both_parts 0 a (take 20 two_bytes_reply ++ drop 20 two_bytes_reply) refl)

wire-free : (wire.lock ≡ none) × (wire.broken ≡ false)
unfolding new arrive take_lock push release
wire-free = (refl, refl)

Run-read_replies_example :
    (wire.sent ≡ stream stick_answers wire.log)
    × (read_replies into (length wire.log) wire.sent
        ≡ some (map (answer stick_answers) wire.log, []))
Run-read_replies_example =
    Run-read_replies stick_answers into wire wire-Run wire-free.0 wire-free.1 stick_answers_count

two_bytes_reply_long : 48 ≤ length two_bytes_reply
unfolding handled_bytes
two_bytes_reply_long = omega (
  arith,
  (reply_fits in_header submit_command []
      (carry_out stick_answers in_header submit_command [] fresh).0).2,
)

front_part : take 20 two_bytes_reply ≢ []
front_part e = omega (arith, ap length e, length-take 20 two_bytes_reply, two_bytes_reply_long)

rest_part : drop 20 two_bytes_reply ≢ []
rest_part e = omega (arith, ap length e, length-drop 20 two_bytes_reply, two_bytes_reply_long)

Run-cut_example :
    (w : Wire) × Run stick_answers into true new w
    × (w.lock ≡ none)
    × (w.broken ≡ false)
    × (w.log ≡ unlinked 43 ∷ [])
    × (w.sent ≡ take 20 two_bytes_reply ++ handled_bytes stick_answers (unlinked 43))
    × (read_replies into 1 w.sent ≢ some (answer stick_answers (unlinked 43) ∷ [], []))
    × (read_replies into 2 w.sent
        ≢ some (
          answer stick_answers (submitted two_bytes_in) ∷ answer stick_answers (unlinked 43) ∷ [],
          [],
        ))
Run-cut_example =
    Run-cut stick_answers into two_bytes_in 43 (take 20 two_bytes_reply) (drop 20 two_bytes_reply)
      (omega arith, omega arith, refl) (omega arith) (sym (take-drop 20 two_bytes_reply)) front_part
      rest_part
