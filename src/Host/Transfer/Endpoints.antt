-- ===== src/Host/Transfer/Endpoints.antt =====
-- The caches of an opened device, of crates/host-mac/src/lib.rs: `endpoint_kind`, `ensure_interface`,
-- `ensure_endpoint`, `invalidate_interface_endpoints`, `cancel_endpoint`.
use usbipd_darwin.Common.{
  ℕ, List, [], ◌∷◌, Option, none, some, Bool, true, false, not, Result, ok, err, unwrap_or, ◌==◌,
  nat_eq, if◌then◌else◌, find, filter, map,
}
use usbipd_darwin.Common.Map
use usbipd_darwin.Common.Map.{Map}
use usbipd_darwin.Host.Open.{
  EpKind, bulk, interrupt, EndpointEntry, HostError, endpoint_not_found, unsupported_transfer,
}
use usbipd_darwin.Host.Transfer.Calls.{
  TransferType, bulk_pipe, interrupt_pipe, EndpointDescriptor, InterfaceDescriptor, claim_interface,
  clear_halt, cancel_all, set_alt_setting, open_endpoint, Answers, Use, T, ◌>>◌, pure, modify, ask,
  try_ask,
}

unfoldable pub is_claimed : ℕ → List ℕ → Bool
is_claimed n [] = false
is_claimed n (i ∷ is) = let rest = is_claimed n is in if i == n then true else rest

-- The alternate setting that is in use, or else the first one.
unfoldable pub active_setting : Map ℕ ℕ → ℕ → List InterfaceDescriptor → Option InterfaceDescriptor
active_setting alt_map iface_num settings =
    let alts = filter (λ s. s.interface_number == iface_num) settings in
    let active_alt = unwrap_or (Map.get iface_num alt_map) 0 in
    elim (find (λ a. a.alternate_setting == active_alt) alts) as (λ _. Option InterfaceDescriptor) [
      | some a ↦ some a
      | none ↦ find (λ _. true) alts
    ]

unfoldable pub kind_of : ℕ → ℕ → TransferType → Result (ℕ × EpKind) HostError
kind_of ep_addr iface_num bulk_pipe = ok (iface_num, bulk)
kind_of ep_addr iface_num interrupt_pipe = ok (iface_num, interrupt)
kind_of ep_addr iface_num other_type = err (unsupported_transfer ep_addr)

-- The endpoint of the address in the setting that the interface uses.
unfoldable pub active_endpoint :
    Map ℕ ℕ → List InterfaceDescriptor → ℕ → ℕ → Option EndpointDescriptor
active_endpoint alt_map settings ep_addr iface_num =
    elim (active_setting alt_map iface_num settings) as (λ _. Option EndpointDescriptor) [
      | none ↦ none
      | some iface ↦ find (λ e. e.address == ep_addr) iface.endpoints
    ]

-- The interfaces in the order in which the map is walked.
unfoldable pub search_endpoint :
    Map ℕ ℕ → List InterfaceDescriptor → ℕ → List ℕ → Result (ℕ × EpKind) HostError
search_endpoint alt_map settings ep_addr [] = err (endpoint_not_found ep_addr)
search_endpoint alt_map settings ep_addr (n ∷ ns) =
    let rest = search_endpoint alt_map settings ep_addr ns in
    elim (active_endpoint alt_map settings ep_addr n) as (λ _. Result (ℕ × EpKind) HostError) [
      | none ↦ rest
      | some e ↦ kind_of ep_addr n e.transfer_type
    ]

module _ (nusb : Answers) where
  unfoldable pub endpoint_kind : ℕ → T (ℕ × EpKind)
  endpoint_kind ep_addr u =
      elim (nusb.active_configuration u.calls) as (λ _. Result (ℕ × EpKind) HostError × Use) [
        | none ↦ (err (endpoint_not_found ep_addr), u)
        | some settings ↦ (
          search_endpoint u.dev.alt_settings settings ep_addr
              (nusb.hash_order (map (λ s. s.interface_number) settings)),
          u,
        )
      ]

  claim : ℕ → T (Unit {0})
  unfolding ask try_ask
  claim num = do
    ask nusb (claim_interface num)
    try_ask nusb (set_alt_setting num 0)
    modify (λ dev. record dev { interfaces = num ∷ dev.interfaces })

  unfoldable pub ensure_interface : ℕ → T (Unit {0})
  unfolding claim
  ensure_interface num u = if is_claimed num u.dev.interfaces then (ok tt, u) else claim num u

  open_entry : ℕ → ℕ → EpKind → T EndpointEntry
  unfolding ensure_interface ask try_ask
  open_entry ep_addr iface_num kind = do
    ensure_interface iface_num
    ask nusb (open_endpoint iface_num ep_addr kind)
    try_ask nusb (clear_halt ep_addr)
    let entry : EndpointEntry = record { iface_num = iface_num; kind = kind }
    modify (λ dev. record dev { endpoints = Map.insert ep_addr entry dev.endpoints })
    pure entry

  unfoldable pub ensure_endpoint : ℕ → ℕ × EpKind → T EndpointEntry
  unfolding open_entry
  ensure_endpoint ep_addr (iface_num, kind) u =
      elim (Map.get ep_addr u.dev.endpoints) as (λ _. Result EndpointEntry HostError × Use) [
        | some entry ↦ (ok entry, u)
        | none ↦ open_entry ep_addr iface_num kind u
      ]

  unfoldable pub cancel_endpoint : ℕ → T (Unit {0})
  unfolding try_ask
  cancel_endpoint ep_addr u =
      elim (Map.get ep_addr u.dev.endpoints) as (λ _. Result (Unit {0}) HostError × Use) [
        | none ↦ (ok tt, u)
        | some entry ↦ try_ask nusb (cancel_all ep_addr) u
      ]

unfoldable pub invalidate_interface_endpoints : ℕ → T (Unit {0})
invalidate_interface_endpoints num =
    modify
      (λ dev. record dev { endpoints = Map.retain (λ e. not (e.iface_num == num)) dev.endpoints })
