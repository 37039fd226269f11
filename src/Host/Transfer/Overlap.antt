-- ===== src/Host/Transfer/Overlap.antt =====
-- Transfers that overlap, of crates/host-mac/src/lib.rs: `ensure_endpoint` with `ensure_interface`, and
-- the interception of SET_CONFIGURATION, each cut where it lets go of a lock or calls nusb.
pub mod Owned
pub mod Stale
use usbipd_darwin.Common.{
  ℕ, List, [], ◌∷◌, Option, none, some, Bool, Result, ok, err, nat_eq, if◌then◌else◌,
}
use usbipd_darwin.Common.Map
use usbipd_darwin.Common.Map.{Map}
use usbipd_darwin.Host.Open.{EpKind, EndpointEntry, HostError, OpenedDevice}
use usbipd_darwin.Host.Transfer.Calls.{
  Call, set_configuration, claim_interface, set_alt_setting, open_endpoint, clear_halt, Answers,
  Use, T, ◌>>◌, ask, try_ask,
}
use usbipd_darwin.Host.Transfer.Endpoints.{is_claimed}

-- Where a thread stands. A transfer that has found the interface and the kind of its endpoint: before
-- the look at the endpoints, before the look at the interfaces, before the claim, behind it, before the
-- opening of the endpoint, behind it. A SET_CONFIGURATION: before each of its three locks, and before
-- the call. The rest: done, or ended with an error.
pub data Stage : Type 0 where
  looking needs_interface claiming claimed has_interface opened : ℕ → ℕ → EpKind → Stage
  clears_endpoints clears_interfaces clears_settings configuring : ℕ → Stage
  ready : Stage
  failed : HostError → Stage

-- `ifaces.entry(num).or_insert(iface)`, `endpoints.entry(ep_addr).or_insert(..)`
unfoldable pub note_interface : ℕ → OpenedDevice → OpenedDevice
note_interface num dev =
    if is_claimed num dev.interfaces then dev else record dev { interfaces = num ∷ dev.interfaces }

unfoldable pub note_endpoint : ℕ → EndpointEntry → OpenedDevice → OpenedDevice
note_endpoint ep_addr entry dev = elim (Map.get ep_addr dev.endpoints) as (λ _. OpenedDevice) [
  | some there ↦ dev
  | none ↦ record dev { endpoints = Map.insert ep_addr entry dev.endpoints }
]

-- What a call with `?` leads to.
unfoldable pub if_ok : Stage → Result (Unit {0}) HostError × Use → Stage × Use
if_ok next (ok _, u) = (next, u)
if_ok next (err e, u) = (failed e, u)

module _ (nusb : Answers) where
  unfoldable pub advance : Stage → Use → Stage × Use
  unfolding note_interface note_endpoint if_ok ask try_ask
  advance (looking a i k) u = elim (Map.get a u.dev.endpoints) as (λ _. Stage × Use) [
    | some entry ↦ (ready, u)
    | none ↦ (needs_interface a i k, u)
  ]
  advance (needs_interface a i k) u =
      if is_claimed i u.dev.interfaces then (has_interface a i k, u) else (claiming a i k, u)
  advance (claiming a i k) u =
      if_ok (claimed a i k) ((ask nusb (claim_interface i) >> try_ask nusb (set_alt_setting i 0)) u)
  advance (claimed a i k) u = (has_interface a i k, record u { dev = note_interface i u.dev })
  advance (has_interface a i k) u =
      if_ok (opened a i k) ((ask nusb (open_endpoint i a k) >> try_ask nusb (clear_halt a)) u)
  advance (opened a i k) u =
      (ready, record u { dev = note_endpoint a (record { iface_num = i; kind = k }) u.dev })
  advance (clears_endpoints cfg) u =
      (clears_interfaces cfg, record u { dev = record u.dev { endpoints = [] } })
  advance (clears_interfaces cfg) u =
      (clears_settings cfg, record u { dev = record u.dev { interfaces = [] } })
  advance (clears_settings cfg) u =
      (configuring cfg, record u { dev = record u.dev { alt_settings = [] } })
  advance (configuring cfg) u = if_ok ready (ask nusb (set_configuration cfg) u)
  advance ready u = (ready, u)
  advance (failed e) u = (failed e, u)

-- The device and the threads that use it.
pub record Shared : Type 0 where
  pub use_of : Use
  pub threads : Map ℕ Stage

module _ (nusb : Answers) where
  unfoldable pub turn : ℕ → Shared → Shared
  unfolding advance
  turn id s = elim (Map.get id s.threads) as (λ _. Shared) [
    | none ↦ s
    | some t ↦
        let (t', u) = advance nusb t s.use_of in
        record { use_of = u; threads = Map.insert id t' s.threads }
  ]

  -- The threads take turns in the order of the numbers.
  unfoldable pub overlap : List ℕ → Shared → Shared
  unfolding turn
  overlap [] s = s
  overlap (id ∷ ids) s = overlap ids (turn id s)
