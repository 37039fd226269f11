-- ===== src/Daemon/Urb/Blocking.antt =====
-- The blocking transfer of `run_submit` of crates/usbipd/src/daemon.rs, on the opened device.
use usbipd_darwin.Common.{
  ℕ, ◌^◌, ◌≤◌, ◌<◌, List, ◌≡◌, ◌⊎◌, inl, inr, arith, true, false, Result, ok, err, ◌==◌, nat_eq,
  nat_beq_iff, ltb, if◌then◌else◌, length, pos, Bool-cases, Result-cases,
}
use usbipd_darwin.Common.Words.{IsI32}
use usbipd_darwin.Common.Bits.{bit_and-top_set}
use usbipd_darwin.Host.Open.{HostError}
use usbipd_darwin.Host.Setup.{from_bytes}
use usbipd_darwin.Host.Transfer.Calls.{Answers, Use}
use usbipd_darwin.Host.Transfer.Control.{control_transfer}
use usbipd_darwin.Host.Transfer.Transmit.{TransferResult, into_host, data_transfer}
use usbipd_darwin.Host.Transfer.Bounds.{Counts, data_transfer-in}
use usbipd_darwin.Proto.Urb.Messages.{UrbHeader, CmdSubmit}
use usbipd_darwin.Daemon.Urb.Requests.{buffer_length, dir_in, endpoint_address}
use usbipd_darwin.Daemon.Urb.Reply.{
  Transfer, control, on_endpoint, transfer_result, outcome, epipe, eoverflow,
}

-- `Ok((r.actual_length, r.data))`
pair_of : Result TransferResult HostError → Result (ℕ × List ℕ) HostError
pair_of (ok r) = ok (r.actual_length, r.bytes)
pair_of (err e) = err e

unfoldable pub carry_out : Answers → UrbHeader → CmdSubmit → List ℕ → Use → Transfer × Use
unfolding pair_of
carry_out nusb basic cmd out_payload u =
    if basic.ep == 0
    then (let (r, v) = control_transfer nusb (from_bytes cmd.setup) out_payload u in (control r, v))
    else (let (r, v) =
          data_transfer nusb (endpoint_address basic) (buffer_length cmd) out_payload u in
        (on_endpoint (pair_of r), v))

endpoint_address-into_host :
    (basic : UrbHeader)
    → dir_in basic ≡ true
    → (basic.ep == 0) ≡ false
    → into_host (endpoint_address basic) ≡ true
unfolding endpoint_address
endpoint_address-into_host basic into other = ground (arith, into, other, bit_and-top_set basic.ep)

buffer_length_lem :
    (cmd : CmdSubmit) → IsI32 cmd.transfer_buffer_length → buffer_length cmd < 2 ^ 31
unfolding buffer_length
buffer_length_lem cmd h = ground (arith, h)

-- The answer to an IN request with a buffer length of 32 bits, where nusb hands over as many bytes as
-- it counts: with status 0 it counts exactly the bytes of its payload, which are at most those asked
-- for; any other status is -32, or for the control endpoint -75.
pub carry_out-exact :
    (nusb : Answers) (basic : UrbHeader) (cmd : CmdSubmit) (out_payload : List ℕ) (u : Use)
    → Counts nusb
    → dir_in basic ≡ true
    → IsI32 cmd.transfer_buffer_length
    → let t = (carry_out nusb basic cmd out_payload u).0 in
      let (status, actual_length, payload) =
        outcome true (buffer_length cmd) (transfer_result true out_payload t) in
      ((status ≡ pos 0)
        × (actual_length ≡ pos (length payload))
        × (length payload ≤ buffer_length cmd))
      ⊎ (status ≡ epipe)
      ⊎ (basic.ep ≡ 0) × (status ≡ eoverflow)
unfolding carry_out transfer_result outcome
carry_out-exact nusb basic cmd out_payload u counts into fits = elim (Bool-cases (basic.ep == 0)) [
  | inl is_control ↦
      elim (Result-cases (control_transfer nusb (from_bytes cmd.setup) out_payload u).0) [
        | inr (e, failed) ↦ inr (inl (ground (arith, is_control, failed)))
        | inl (bytes, fine) ↦ elim (Bool-cases (ltb (buffer_length cmd) (length bytes))) [
          | inl long ↦
              inr (
                inr ((nat_beq_iff basic.ep 0).0 is_control, ground (arith, is_control, fine, long)))
          | inr short ↦ inl (
            ground (arith, is_control, fine, short),
            ground (arith, is_control, fine, short, buffer_length_lem cmd fits),
            ground (arith, is_control, fine, short),
          )
        ]
      ]
  | inr other ↦
      elim (Result-cases
        (data_transfer nusb (endpoint_address basic) (buffer_length cmd) out_payload u).0) [
          | inr (e, failed) ↦ inr (inl (ground (arith, other, failed)))
          | inl (r, fine) ↦
              let into_it = endpoint_address-into_host basic into other in
              let (few, exact, _, _, _, _, _) =
                data_transfer-in nusb (endpoint_address basic) (buffer_length cmd) out_payload u r
                  counts into_it fine in
              let bound = buffer_length_lem cmd fits in
              inl (
                ground (arith, other, fine, few),
                ground (arith, other, fine, few, exact, bound),
                ground (arith, other, fine, few),
              )
        ]
]
