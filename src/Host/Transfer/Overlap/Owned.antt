-- ===== src/Host/Transfer/Overlap/Owned.antt =====
-- What overlapping transfers keep of the caches of crates/host-mac/src/lib.rs.
use usbipd_darwin.Common.{
  ℕ, List, [], ◌∷◌, some, true, ok, ◌≡◌, inl, inr, refl, subst, arith, ◌==◌, nat_eq, Option-cases,
  Bool-cases, Result-cases,
}
use usbipd_darwin.Common.Map
use usbipd_darwin.Common.Map.{Map}
use usbipd_darwin.Host.Open.{EpKind, EndpointEntry, OpenedDevice, Usb, open_busid}
use usbipd_darwin.Host.Transfer.Calls.{claim_interface, open_endpoint, Answers, Use, ask}
use usbipd_darwin.Host.Transfer.Endpoints.{is_claimed}
use usbipd_darwin.Host.Transfer.Caches.{
  Each-get, Each-insert, Each-map, Claimed, claimed-cons, IsOwned,
}
use usbipd_darwin.Host.Transfer.Sequence.{
  Operation, operate_all, operate_all-IsOwned, open_busid-IsOwned,
}
use usbipd_darwin.Host.Transfer.Overlap.{
  Stage, looking, needs_interface, claiming, claimed, has_interface, opened, clears_endpoints,
  clears_interfaces, clears_settings, configuring, ready, failed, note_interface, note_endpoint,
  advance, Shared, turn, overlap,
}

-- What a thread relies on: a transfer on its interface once it has seen it. A SET_CONFIGURATION is no
-- such thread.
abbrev pub IsTransfer : OpenedDevice → Stage → Type 0
IsTransfer dev (looking a i k) = Unit
IsTransfer dev (needs_interface a i k) = Unit
IsTransfer dev (claiming a i k) = Unit
IsTransfer dev (claimed a i k) = Unit
IsTransfer dev (has_interface a i k) = is_claimed i dev.interfaces ≡ true
IsTransfer dev (opened a i k) = is_claimed i dev.interfaces ≡ true
IsTransfer dev (clears_endpoints cfg) = ⊥
IsTransfer dev (clears_interfaces cfg) = ⊥
IsTransfer dev (clears_settings cfg) = ⊥
IsTransfer dev (configuring cfg) = ⊥
IsTransfer dev ready = Unit
IsTransfer dev (failed e) = Unit

abbrev Grows : OpenedDevice → OpenedDevice → Type 0
Grows dev later =
    (n : ℕ) → is_claimed n dev.interfaces ≡ true → is_claimed n later.interfaces ≡ true

IsTransfer-Grows :
    (dev later : OpenedDevice) (t : Stage) → Grows dev later → IsTransfer dev t → IsTransfer later t
IsTransfer-Grows dev later (looking a i k) g h = tt
IsTransfer-Grows dev later (needs_interface a i k) g h = tt
IsTransfer-Grows dev later (claiming a i k) g h = tt
IsTransfer-Grows dev later (claimed a i k) g h = tt
IsTransfer-Grows dev later (has_interface a i k) g h = g i h
IsTransfer-Grows dev later (opened a i k) g h = g i h
IsTransfer-Grows dev later (clears_endpoints cfg) g h = absurd h
IsTransfer-Grows dev later (clears_interfaces cfg) g h = absurd h
IsTransfer-Grows dev later (clears_settings cfg) g h = absurd h
IsTransfer-Grows dev later (configuring cfg) g h = absurd h
IsTransfer-Grows dev later ready g h = tt
IsTransfer-Grows dev later (failed e) g h = tt

-- What one step of a transfer leaves behind.
abbrev Fine : OpenedDevice → Stage × Use → Type 0
Fine dev (t, v) = IsOwned v.dev × IsTransfer v.dev t × Grows dev v.dev

note_interface-claimed :
    (num : ℕ) (dev : OpenedDevice)
    → IsOwned dev
    → IsOwned (note_interface num dev)
      × (is_claimed num (note_interface num dev).interfaces ≡ true)
      × Grows dev (note_interface num dev)
unfolding note_interface is_claimed
note_interface-claimed num dev own = elim (Bool-cases (is_claimed num dev.interfaces)) [
  | inl there ↦ rw there (own, there, λ n h. h)
  | inr missing ↦ rw missing (
    Each-map (Claimed dev.interfaces) (Claimed (num ∷ dev.interfaces)) dev.endpoints
        (λ e c. claimed-cons e.iface_num num dev.interfaces c) own,
    rw (Map.beq_refl num) refl,
    λ n h. claimed-cons n num dev.interfaces h,
  )
]

note_endpoint-IsOwned :
    (a : ℕ) (e : EndpointEntry) (dev : OpenedDevice)
    → IsOwned dev
    → is_claimed e.iface_num dev.interfaces ≡ true
    → IsOwned (note_endpoint a e dev) × Grows dev (note_endpoint a e dev)
unfolding note_endpoint
note_endpoint-IsOwned a e dev own h = elim (Option-cases (Map.get a dev.endpoints)) [
  | inr (there, found) ↦
      let same : dev ≡ note_endpoint a e dev = ground (arith, found) in
      subst (λ d. IsOwned d × Grows dev d) same (own, λ n c. c)
  | inl missing ↦
      let grown : OpenedDevice = record dev { endpoints = Map.insert a e dev.endpoints } in
      let same : grown ≡ note_endpoint a e dev = ground (arith, missing) in
      subst (λ d. IsOwned d × Grows dev d) same
        (Each-insert (Claimed dev.interfaces) a e dev.endpoints h own, λ n c. c)
]

module _ (nusb : Answers) where
  advance-Fine :
      (t : Stage) (u : Use) → IsOwned u.dev → IsTransfer u.dev t → Fine u.dev (advance nusb t u)
  unfolding advance ask
  advance-Fine (looking a i k) u own h = elim (Option-cases (Map.get a u.dev.endpoints)) [
    | inr (e, found) ↦
        let same : (ready, u) ≡ advance nusb (looking a i k) u = ground (arith, found) in
        subst (Fine u.dev) same (own, tt, λ n c. c)
    | inl missing ↦
        let same : (needs_interface a i k, u) ≡ advance nusb (looking a i k) u =
          ground (arith, missing) in
        subst (Fine u.dev) same (own, tt, λ n c. c)
  ]
  advance-Fine (needs_interface a i k) u own h = elim (Bool-cases (is_claimed i u.dev.interfaces)) [
    | inl there ↦ rw there (own, there, λ n c. c)
    | inr missing ↦ rw missing (own, tt, λ n c. c)
  ]
  advance-Fine (claiming a i k) u own h =
      elim (Result-cases (nusb.done u.calls (claim_interface i))) [
        | inl (x, fine) ↦ rw fine (own, tt, λ n c. c)
        | inr (e, refused) ↦ rw refused (own, tt, λ n c. c)
      ]
  advance-Fine (claimed a i k) u own h =
      let (o, c, g) = note_interface-claimed i u.dev own in (o, c, g)
  advance-Fine (has_interface a i k) u own h =
      elim (Result-cases (nusb.done u.calls (open_endpoint i a k))) [
        | inl (x, fine) ↦ rw fine (own, h, λ n c. c)
        | inr (e, refused) ↦ rw refused (own, tt, λ n c. c)
      ]
  advance-Fine (opened a i k) u own h =
      let (o, g) = note_endpoint-IsOwned a (record { iface_num = i; kind = k }) u.dev own h in
      (o, tt, g)
  advance-Fine (clears_endpoints cfg) u own h = absurd h
  advance-Fine (clears_interfaces cfg) u own h = absurd h
  advance-Fine (clears_settings cfg) u own h = absurd h
  advance-Fine (configuring cfg) u own h = absurd h
  advance-Fine ready u own h = (own, tt, λ n c. c)
  advance-Fine (failed e) u own h = (own, tt, λ n c. c)

-- The threads are transfers, and what they rely on holds.
abbrev pub AllTransfers : Shared → Type 0
AllTransfers s =
    IsOwned s.use_of.dev
    × ((id : ℕ) (t : Stage) → Map.get id s.threads ≡ some t → IsTransfer s.use_of.dev t)

turn-AllTransfers :
    (nusb : Answers) (id : ℕ) (s : Shared) → AllTransfers s → AllTransfers (turn nusb id s)
unfolding turn
turn-AllTransfers nusb id s (own, all) = elim (Option-cases (Map.get id s.threads)) [
  | inl nobody ↦
      let same : s ≡ turn nusb id s = ground (arith, nobody) in subst AllTransfers same (own, all)
  | inr (t, there) ↦
      let (o, h, g) = advance-Fine nusb t s.use_of own (all id t there) in
      let v : Use = (advance nusb t s.use_of).1 in
      let now : Stage = (advance nusb t s.use_of).0 in
      let after : Shared = record { use_of = v; threads = Map.insert id now s.threads } in
      let same : after ≡ turn nusb id s = ground (arith, there) in
      subst AllTransfers same (
        o,
        λ j t' at. elim (Bool-cases (id == j)) [
          | inl here ↦
              subst (IsTransfer v.dev) (ground (arith, at, here, Map.get-insert id j now s.threads))
                h
          | inr other ↦
              IsTransfer-Grows s.use_of.dev v.dev t' g
                (all j t' (ground (arith, at, other, Map.get-insert id j now s.threads)))
        ],
      )
]

overlap-AllTransfers :
    (nusb : Answers) (ids : List ℕ) (s : Shared)
    → AllTransfers s
    → AllTransfers (overlap nusb ids s)
unfolding overlap
overlap-AllTransfers nusb [] s h = h
overlap-AllTransfers nusb (id ∷ ids) s h =
    overlap-AllTransfers nusb ids (turn nusb id s) (turn-AllTransfers nusb id s h)

-- Transfers that have not looked at the caches yet.
abbrev pub Starting : Map ℕ Stage → Type 0
Starting [] = Unit {0}
Starting ((id, t) ∷ m) = ((a : ℕ) × (i : ℕ) × (k : EpKind) × (t ≡ looking a i k)) × Starting m

Starting-IsTransfer :
    (dev : OpenedDevice) (m : Map ℕ Stage) (id : ℕ) (t : Stage)
    → Starting m
    → Map.get id m ≡ some t
    → IsTransfer dev t
unfolding Map.get
Starting-IsTransfer dev [] id t h at = absurd (ground arith)
Starting-IsTransfer dev ((j, s) ∷ m) id t ((a, i, k, starts), h) at = elim (Bool-cases (j == id)) [
  | inl same ↦
      let look : looking a i k ≡ t = ground (arith, at, same, starts) in
      subst (IsTransfer dev) look tt
  | inr other ↦ Starting-IsTransfer dev m id t h (ground (arith, at, other))
]

-- The device behind the operations and then the turns of the threads.
abbrev pub overlapped :
    Answers → OpenedDevice → List Operation → Map ℕ Stage → List ℕ → OpenedDevice
overlapped nusb dev os threads ids =
    (overlap nusb ids (record {
      use_of = operate_all nusb os (record { dev = dev; calls = [] });
      threads = threads;
    })).use_of.dev

-- Behind any sequence of operations on a device since it was opened: however many transfers then find
-- and open their endpoints at once, in whatever order they take their turns and with whatever outcome,
-- an endpoint in the cache belongs to an interface that is claimed.
pub overlap-owned :
    (usb : Usb) (nusb : Answers) (busid : List ℕ) (dev : OpenedDevice) (os : List Operation)
    (threads : Map ℕ Stage) (ids : List ℕ) (ep_addr : ℕ) (entry : EndpointEntry)
    → open_busid usb busid ≡ ok dev
    → Starting threads
    → Map.get ep_addr (overlapped nusb dev os threads ids).endpoints ≡ some entry
    → is_claimed entry.iface_num (overlapped nusb dev os threads ids).interfaces ≡ true
overlap-owned usb nusb busid dev os threads ids ep_addr entry opens starts cached =
    let u : Use = operate_all nusb os (record { dev = dev; calls = [] }) in
    let s : Shared = record { use_of = u; threads = threads } in
    let (own, _) = overlap-AllTransfers nusb ids s (
      operate_all-IsOwned nusb os (record { dev = dev; calls = [] })
          (open_busid-IsOwned usb busid dev opens),
      λ id t at. Starting-IsTransfer u.dev threads id t starts at,
    ) in
    Each-get (Claimed (overlap nusb ids s).use_of.dev.interfaces) ep_addr entry
      (overlap nusb ids s).use_of.dev.endpoints cached own
