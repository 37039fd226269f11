-- ===== src/Daemon/Session/Ending.antt =====
-- The handshake of crates/usbipd/src/daemon.rs that ends by itself, and what an import has read and
-- written when it goes on.
use usbipd_darwin.Common.{
  ℕ, suc, ◌≤◌, List, [], ◌++◌, ◌≡◌, ◌⊎◌, inl, inr, refl, ◌∙◌, arith, Result, ok, err, Result-cases,
  Option-cases, Bool-cases, Nat-cases, length, drop, take, leb, nat_eq, text_eq, ◌==◌,
}
use usbipd_darwin.Common.Map
use usbipd_darwin.Proto.Op.Header
use usbipd_darwin.Proto.Op.Header.{usbip_version, op_req_devlist, op_req_import}
use usbipd_darwin.Host.Devices.{UsbDevice, list_devices}
use usbipd_darwin.Host.Open.{OpenedDevice}
use usbipd_darwin.Daemon.Policy.{filter_devices}
use usbipd_darwin.Daemon.Wire.{encode_rep_devlist}
use usbipd_darwin.Daemon.Conn.{write_failed}
use usbipd_darwin.Daemon.Attach.{try_attach}
use usbipd_darwin.Daemon.Session.Flow.{
  SessionError, read_op_header, decode_op_header, enumerate_devices, write_devlist, World, go, stop,
  Flow, Flow-cases, read_exact, write_all,
}
use usbipd_darwin.Daemon.Session.Handlers.{
  Host, handle_devlist, handle_import, handle_session, claim_and_open, open_claimed,
  send_import_err,
}
use usbipd_darwin.Daemon.Session.Import.{claimed}

-- Where the handshake ends by itself, the claims are as they were.
abbrev pub Ends : {A : Type 0} → World → Flow A × World → Type 0
Ends w p =
    (r : Result (Unit {0}) SessionError) × (v : World) × (p ≡ (stop r, v)) × (v.state ≡ w.state)

handle_devlist-Ends :
    {A : Type 0} (host : Host) (w : World) → Ends {A = A} w (handle_devlist host w)
unfolding handle_devlist write_all
handle_devlist-Ends host w = elim (Result-cases (list_devices host.listed)) [
  | inr (e, unlisted) ↦ (err (enumerate_devices e), w, ground (arith, unlisted), refl)
  | inl (devices, listed) ↦
      let reply = encode_rep_devlist (filter_devices w.state.policy devices) in
      elim (Nat-cases w.conn.writes_left) [
        | inl broken ↦ (err (write_devlist write_failed), w, ground (arith, listed, broken), refl)
        | inr (left, works) ↦ (
          ok tt,
          record w { conn = record w.conn { sent = w.conn.sent ++ reply; writes_left = left } },
          ground (arith, listed, works),
          refl,
        )
      ]
]

abbrev pub header_read : World → World
header_read w = record w { conn = record w.conn { input = drop 8 w.conn.input } }

pub handle_session-cases :
    (host : Host) (peer : List ℕ) (w : World)
    → Ends w (handle_session host peer w)
      ⊎ ((8 ≤ length w.conn.input)
          × (handle_session host peer w ≡ handle_import host peer (header_read w)))
unfolding handle_session read_exact
handle_session-cases host peer w = elim (Bool-cases (leb 8 (length w.conn.input))) [
  | inr short ↦ inl (
    err (read_op_header w.conn.ending),
    record w { conn = record w.conn { input = [] } },
    ground (arith, short),
    refl,
  )
  | inl long ↦ elim (Result-cases (Header.decode (take 8 w.conn.input))) [
    | inr (e, bad) ↦ inl (err (decode_op_header e), header_read w, ground (arith, long, bad), refl)
    | inl (h, fine) ↦ elim (Bool-cases (h.version == usbip_version)) [
      | inr other ↦ inl (ok tt, header_read w, ground (arith, long, fine, other), refl)
      | inl ours ↦ elim (Bool-cases (h.code == op_req_devlist)) [
        | inl list ↦
            let (r, v, same, kept) = handle_devlist-Ends host (header_read w) in
            inl (r, v, ground (arith, long, fine, ours, list) ∙ same, kept)
        | inr not_list ↦ elim (Bool-cases (h.code == op_req_import)) [
          | inr neither ↦
              inl (ok tt, header_read w, ground (arith, long, fine, ours, not_list, neither), refl)
          | inl is_import ↦
              inr (ground arith, ground (arith, long, fine, ours, not_list, is_import))
        ]
      ]
    ]
  ]
]

-- The import reply is one write, and reads nothing.
abbrev Replied : World → World → Type 0
Replied w v =
    (v.conn.input ≡ w.conn.input)
    × (w.conn.writes_left ≡ suc v.conn.writes_left)
    × (v.conn.ending ≡ w.conn.ending)

open_claimed-Replied :
    (host : Host) (busid : List ℕ) (listed : UsbDevice) (w v : World) (x : UsbDevice × OpenedDevice)
    → open_claimed host busid listed w ≡ (go x, v)
    → Replied w v
unfolding open_claimed write_all
open_claimed-Replied host busid listed w v x e = elim (Nat-cases w.conn.writes_left) [
  | inl broken ↦ absurd (ground arith)
  | inr (left, works) ↦ (ground arith, ground arith, ground arith)
]

pub claim-Replied :
    (host : Host) (peer busid : List ℕ) (listed : UsbDevice) (w v : World)
    (x : UsbDevice × OpenedDevice)
    → claim_and_open host peer busid listed w ≡ (go x, v)
    → Replied w v
unfolding claim_and_open try_attach send_import_err
claim-Replied host peer busid listed w v x e =
    elim (Option-cases (Map.get busid w.state.attached)) [
      | inr (holder, h) ↦ absurd (ground arith)
      | inl fresh ↦ elim (Flow-cases (open_claimed host busid listed (claimed busid peer w))) [
        | inr (q, u, h) ↦ absurd (ground arith)
        | inl (y, u, h) ↦
            let (input, writes, ending) =
              open_claimed-Replied host busid listed (claimed busid peer w) u y h in
            (ground (arith, input), ground (arith, writes), ground (arith, ending))
      ]
    ]
