-- ===== src/Daemon/Session/Import.antt =====
-- What an import does to the connection and to the state, on every way out.
use usbipd_darwin.Common.{
  ℕ, ◌≤◌, List, [], ◌++◌, none, some, ◌≡◌, ◌⊎◌, inl, inr, arith, Result, ok, true, Option-cases,
  Result-cases, Bool-cases, text_eq, text_beq_iff, find, ◌==◌, take, drop, length, leb,
}
use usbipd_darwin.Common.Map
use usbipd_darwin.Common.Map.{Map}
use usbipd_darwin.Proto.Op.Device.{
  encode_rep_import_ok, encode_rep_import_err, decode_req_import_busid,
}
use usbipd_darwin.Host.Ids.{pack_devid}
use usbipd_darwin.Host.Devices.{UsbDevice, list_devices}
use usbipd_darwin.Host.Open.{OpenedDevice, open_busid, descriptor_snapshot}
use usbipd_darwin.Host.Open.Numbers.{open_busid-snapshot}
use usbipd_darwin.Daemon.Policy.{permits}
use usbipd_darwin.Daemon.Attach.{try_attach, drop_guard}
use usbipd_darwin.Daemon.Wire.{to_exported}
use usbipd_darwin.Daemon.Session.Flow.{SessionError, World, go, stop, Flow-cases}
use usbipd_darwin.Daemon.Session.Handlers.{
  Host, send_import_err, describe, open_claimed, claim_and_open, handle_import,
}

module _ (host : Host) (busid : List ℕ) (listed : UsbDevice) (w v : World) where
  -- A claimed device that opens: the client has the reply, and its numbers are the device's.
  open_claimed-go :
      (desc : UsbDevice) (dev : OpenedDevice)
      → open_claimed host busid listed w ≡ (go (desc, dev), v)
      → (v.state ≡ w.state)
        × (v.conn.sent ≡ w.conn.sent ++ encode_rep_import_ok [] (to_exported desc))
        × (open_busid host.usb busid ≡ ok dev)
        × (desc ≡ describe listed (descriptor_snapshot host.usb dev))
  unfolding open_claimed
  open_claimed-go desc dev e = ground arith

  open_claimed-stop :
      (r : Result (Unit {0}) SessionError)
      → open_claimed host busid listed w ≡ (stop r, v)
      → (v.state ≡ w.state)
        × ((v.conn.sent ≡ w.conn.sent) ⊎ (v.conn.sent ≡ w.conn.sent ++ encode_rep_import_err []))
  unfolding open_claimed send_import_err
  open_claimed-stop r e = ground arith

-- The guard that is dropped on a way out takes away just what the claim put in.
pub attached_again :
    (busid peer k : List ℕ) (m : Map (List ℕ) (List ℕ))
    → Map.get busid m ≡ none
    → Map.get k (Map.remove busid (Map.insert busid peer m)) ≡ Map.get k m
attached_again busid peer k m fresh = ground (
  arith,
  Map.get-remove busid k (Map.insert busid peer m),
  Map.get-insert busid k peer m,
  text_beq_iff busid k,
)

abbrev pub claimed : List ℕ → List ℕ → World → World
claimed busid peer w = record w {
  state = record w.state { attached = Map.insert busid peer w.state.attached };
}

module _ (host : Host) (peer busid : List ℕ) (listed : UsbDevice) (w v : World) where
  pub claim-go :
      (desc : UsbDevice) (dev : OpenedDevice)
      → claim_and_open host peer busid listed w ≡ (go (desc, dev), v)
      → (Map.get busid w.state.attached ≡ none)
        × (v.state ≡ (claimed busid peer w).state)
        × (v.conn.sent ≡ w.conn.sent ++ encode_rep_import_ok [] (to_exported desc))
        × (open_busid host.usb busid ≡ ok dev)
        × (desc ≡ describe listed (descriptor_snapshot host.usb dev))
  unfolding claim_and_open try_attach
  claim-go desc dev e = elim (Option-cases (Map.get busid w.state.attached)) [
    | inr (holder, h) ↦ absurd (unfold send_import_err in ground arith)
    | inl fresh ↦
        ground (arith, open_claimed-go host busid listed (claimed busid peer w) v desc dev)
  ]

  claim-stop :
      (r : Result (Unit {0}) SessionError)
      → claim_and_open host peer busid listed w ≡ (stop r, v)
      → ((k : List ℕ) → Map.get k v.state.attached ≡ Map.get k w.state.attached)
        × (v.state.policy ≡ w.state.policy)
        × ((v.conn.sent ≡ w.conn.sent) ⊎ (v.conn.sent ≡ w.conn.sent ++ encode_rep_import_err []))
  unfolding claim_and_open try_attach
  claim-stop r e = elim (Option-cases (Map.get busid w.state.attached)) [
    | inr (holder, h) ↦ unfold send_import_err in (λ k. ground arith, ground arith, ground arith)
    | inl fresh ↦ elim (Flow-cases (open_claimed host busid listed (claimed busid peer w))) [
      | inl (a, u, h) ↦ absurd (ground arith)
      | inr (q, u, h) ↦
          let (same, _) = open_claimed-stop host busid listed (claimed busid peer w) u q h in
          let (_, sent) = open_claimed-stop host busid listed (claimed busid peer w) u q h in
          let kept : v ≡ record u { state = drop_guard busid u.state } = ground arith in
          unfold drop_guard in
          (
            λ k. ground (arith, attached_again busid peer k w.state.attached fresh),
            ground arith,
            ground arith,
          )
    ]
  ]

-- An import that goes on has read its busid, and claimed and opened a device that the policy permits.
pub handle_import-claim :
    (host : Host) (peer : List ℕ) (w v : World) (desc : UsbDevice) (dev : OpenedDevice)
    → handle_import host peer w ≡ (go (desc, dev), v)
    → let u : World = record w { conn = record w.conn { input = drop 32 w.conn.input } } in
      (busid : List ℕ) × (listed : UsbDevice) × (32 ≤ length w.conn.input)
      × (permits w.state.policy listed.vendor_id listed.product_id ≡ true)
      × (claim_and_open host peer busid listed u ≡ (go (desc, dev), v))
unfolding handle_import
handle_import-claim host peer w v desc dev e = elim (Bool-cases (leb 32 (length w.conn.input))) [
  | inr short ↦ absurd (ground arith)
  | inl long ↦ elim (Result-cases (decode_req_import_busid (take 32 w.conn.input))) [
    | inr (x, h1) ↦ absurd (ground arith)
    | inl (busid, h1) ↦ elim (Result-cases (list_devices host.listed)) [
      | inr (x, h2) ↦ absurd (ground arith)
      | inl (devices, h2) ↦ elim (Option-cases (find (λ d. d.busid == busid) devices)) [
        | inl h3 ↦ absurd (unfold send_import_err in ground arith)
        | inr (listed, h3) ↦
            elim (Bool-cases (permits w.state.policy listed.vendor_id listed.product_id)) [
              | inr refused ↦ absurd (unfold send_import_err in ground arith)
              | inl permitted ↦ (busid, listed, ground arith, permitted, ground arith)
            ]
      ]
    ]
  ]
]

-- A session that enters URB mode: the policy permits the device, no other client holds it, and this
-- one does from now on; the client has one reply, whose bus and device numbers make up the devid that
-- the device was opened with.
pub handle_import-go :
    (host : Host) (peer : List ℕ) (w v : World) (desc : UsbDevice) (dev : OpenedDevice)
    → handle_import host peer w ≡ (go (desc, dev), v)
    → (permits w.state.policy desc.vendor_id desc.product_id ≡ true)
      × (Map.get desc.busid w.state.attached ≡ none)
      × (Map.get desc.busid v.state.attached ≡ some peer)
      × (v.conn.sent ≡ w.conn.sent ++ encode_rep_import_ok [] (to_exported desc))
      × (pack_devid desc.busnum desc.devnum ≡ dev.devid)
unfolding describe
handle_import-go host peer w v desc dev e =
    let u : World = record w { conn = record w.conn { input = drop 32 w.conn.input } } in
    let (busid, listed, _, permitted, entered) = handle_import-claim host peer w v desc dev e in
    let (fresh, state, sent, opened, described) =
      claim-go host peer busid listed u v desc dev entered in
    let (_, _, packed, same) = open_busid-snapshot host.usb busid dev opened in
    let name : desc.busid ≡ busid = ground arith in
    (
      ground arith,
      ground arith,
      ground (arith, Map.get-insert busid busid peer w.state.attached, Map.beq_refl busid),
      sent,
      ground arith,
    )

-- A session that ends in the handshake leaves no claim behind, whatever went wrong and wherever: every
-- device is attached to whom it was attached before. The client has at most the failure reply.
pub handle_import-stop :
    (host : Host) (peer : List ℕ) (w v : World) (r : Result (Unit {0}) SessionError)
    → handle_import host peer w ≡ (stop r, v)
    → ((k : List ℕ) → Map.get k v.state.attached ≡ Map.get k w.state.attached)
      × (v.state.policy ≡ w.state.policy)
      × ((v.conn.sent ≡ w.conn.sent) ⊎ (v.conn.sent ≡ w.conn.sent ++ encode_rep_import_err []))
unfolding handle_import
handle_import-stop host peer w v r e = elim (Bool-cases (leb 32 (length w.conn.input))) [
  | inr short ↦ (λ k. ground arith, ground arith, ground arith)
  | inl long ↦ elim (Result-cases (decode_req_import_busid (take 32 w.conn.input))) [
    | inr (x, h1) ↦ (λ k. ground arith, ground arith, ground arith)
    | inl (busid, h1) ↦ elim (Result-cases (list_devices host.listed)) [
      | inr (x, h2) ↦ (λ k. ground arith, ground arith, ground arith)
      | inl (devices, h2) ↦ elim (Option-cases (find (λ d. d.busid == busid) devices)) [
        | inl h3 ↦ unfold send_import_err in (λ k. ground arith, ground arith, ground arith)
        | inr (listed, h3) ↦
            let u : World = record w { conn = record w.conn { input = drop 32 w.conn.input } } in
            elim (Bool-cases (permits w.state.policy listed.vendor_id listed.product_id)) [
              | inr refused ↦
                  unfold send_import_err in (λ k. ground arith, ground arith, ground arith)
              | inl permitted ↦ claim-stop host peer busid listed u v r (ground arith)
            ]
      ]
    ]
  ]
]
