-- ===== src/Host/Transfer/Sequence.antt =====
-- Any sequence of transfers on an opened device of crates/host-mac/src/lib.rs, one behind the other.
use usbipd_darwin.Common.{
  ℕ, List, [], ◌∷◌, none, some, true, false, not, ok, err, ◌≡◌, ◌≢◌, ◌⊎◌, inl, inr, ap, ◌∙◌, sym,
  subst, arith, ◌==◌, nat_eq, nat_beq_iff, bit_and, Result-cases, Option-cases, find, text_eq,
}
use usbipd_darwin.Common.Map
use usbipd_darwin.Common.Map.{Map}
use usbipd_darwin.Host.Setup.{SetupPacket, is_set_configuration, is_set_interface}
use usbipd_darwin.Host.Devices.{format_busid}
use usbipd_darwin.Host.Open as Open
use usbipd_darwin.Host.Open.{EndpointEntry, HostError, OpenedDevice, Usb, open_busid, maybe_capture}
use usbipd_darwin.Host.Transfer.Calls.{Call, set_configuration, set_alt_setting, Answers, Use, ask}
use usbipd_darwin.Host.Transfer.Endpoints.{
  cancel_endpoint, ensure_interface, invalidate_interface_endpoints,
}
use usbipd_darwin.Host.Transfer.Control.{control_transfer, clear_caches}
use usbipd_darwin.Host.Transfer.Transmit.{data_transfer}
use usbipd_darwin.Host.Transfer.Caches.{
  IsOwned, Each, Each-get, Each-retain, Claimed, control_transfer-Keeps, data_transfer-Keeps,
}

pub data Operation : Type 0 where
  control : SetupPacket → List ℕ → Operation
  on_endpoint : ℕ → ℕ → List ℕ → Operation
  cancel : ℕ → Operation

Each-any : (m : Map ℕ EndpointEntry) → Each (λ _. Unit {0}) m
Each-any [] = tt
Each-any ((k, e) ∷ m) = (tt, Each-any m)

open_busid-endpoints :
    (usb : Usb) (busid : List ℕ) (dev : OpenedDevice)
    → open_busid usb busid ≡ ok dev
    → dev.endpoints ≡ []
unfolding open_busid
open_busid-endpoints usb busid dev e = elim (Result-cases usb.listed) [
  | inr (x, h1) ↦ absurd (ground arith)
  | inl (infos, h1) ↦ elim (Option-cases (find (λ i. format_busid i == busid) infos)) [
    | inl h2 ↦ absurd (ground arith)
    | inr (found, h2) ↦ elim (Result-cases (maybe_capture usb found)) [
      | inr (x, h3) ↦ absurd (ground arith)
      | inl ((info, captured), h3) ↦ ground arith
    ]
  ]
]

pub open_busid-IsOwned :
    (usb : Usb) (busid : List ℕ) (dev : OpenedDevice) → open_busid usb busid ≡ ok dev → IsOwned dev
open_busid-IsOwned usb busid dev opens =
    subst (Each (Claimed dev.interfaces)) (sym (open_busid-endpoints usb busid dev opens)) tt

set_interface-other :
    (setup : SetupPacket) → is_set_interface setup ≡ true → is_set_configuration setup ≡ false
unfolding is_set_interface is_set_configuration
set_interface-other setup h = ground (arith, h)

module _ (nusb : Answers) where
  unfoldable pub operate : Operation → Use → Use
  operate (control setup out_data) u = (control_transfer nusb setup out_data u).1
  operate (on_endpoint ep_addr size out_data) u = (data_transfer nusb ep_addr size out_data u).1
  operate (cancel ep_addr) u = (cancel_endpoint nusb ep_addr u).1

  unfoldable pub operate_all : List Operation → Use → Use
  unfolding operate
  operate_all [] u = u
  operate_all (o ∷ os) u = operate_all os (operate o u)

  operate-IsOwned : (o : Operation) (u : Use) → IsOwned u.dev → IsOwned (operate o u).dev
  unfolding operate cancel_endpoint
  operate-IsOwned (control setup out_data) u h = control_transfer-Keeps nusb setup out_data u h
  operate-IsOwned (on_endpoint ep_addr size out_data) u h =
      data_transfer-Keeps nusb ep_addr size out_data u h
  operate-IsOwned (cancel ep_addr) u h =
      let same : u.dev ≡ (cancel_endpoint nusb ep_addr u).1.dev = ground arith in
      subst IsOwned same h

  pub operate_all-IsOwned :
      (os : List Operation) (u : Use) → IsOwned u.dev → IsOwned (operate_all os u).dev
  unfolding operate_all
  operate_all-IsOwned [] u h = h
  operate_all-IsOwned (o ∷ os) u h = operate_all-IsOwned os (operate o u) (operate-IsOwned o u h)

  -- SET_CONFIGURATION, whether nusb carries it out or not: no endpoint is cached, no interface is
  -- claimed and no alternate setting is known any more, and nusb was asked for the configuration of
  -- the low byte and for nothing else.
  pub control_transfer-configuration :
      (setup : SetupPacket) (out_data : List ℕ) (u : Use)
      → is_set_configuration setup ≡ true
      → let v = (control_transfer nusb setup out_data u).1 in
        (v.dev ≡ clear_caches u.dev)
        × (v.calls ≡ set_configuration (bit_and setup.w_value 0xff) ∷ u.calls)
  unfolding control_transfer ask
  control_transfer-configuration setup out_data u h = (ground arith, ground arith)

  -- SET_INTERFACE, on every outcome: no endpoint of the interface is cached. Where the transfer succeeds,
  -- the last that nusb was asked is to select the alternate setting of the low byte, which it did, and
  -- the setting is noted for the interface, and those of the others as before; where it fails, the
  -- settings are noted as before.
  pub control_transfer-interface :
      (setup : SetupPacket) (out_data : List ℕ) (u : Use) (ep_addr : ℕ)
      → is_set_interface setup ≡ true
      → let i = bit_and setup.w_index 0xff in
        let (r, v) = control_transfer nusb setup out_data u in
        ((r ≡ ok [])
            × (v.dev.alt_settings ≡ Map.insert i (bit_and setup.w_value 0xff) u.dev.alt_settings)
            × ((before : List Call) × (v.calls
                  ≡ set_alt_setting i (bit_and setup.w_value 0xff) ∷ before)
                × (nusb.done before (set_alt_setting i (bit_and setup.w_value 0xff)) ≡ ok tt))
          ⊎ (e : HostError) × (r ≡ err e) × (v.dev.alt_settings ≡ u.dev.alt_settings))
        × ((Map.get ep_addr v.dev.endpoints ≡ none)
            ⊎ (e : EndpointEntry) × (Map.get ep_addr v.dev.endpoints ≡ some e) × (e.iface_num ≢ i))
  unfolding control_transfer ensure_interface invalidate_interface_endpoints ask
  control_transfer-interface setup out_data u ep_addr sel =
      let conf : is_set_configuration setup ≡ false = set_interface-other setup sel in
      let i : ℕ = bit_and setup.w_index 0xff in
      let alt : ℕ = bit_and setup.w_value 0xff in
      let w : Use = (invalidate_interface_endpoints i u).1 in
      let v : Use = (control_transfer nusb setup out_data u).1 in
      let kept : v.dev.endpoints ≡ w.dev.endpoints = ground (arith, conf, sel) in
      let away =
        Each-retain (λ _. Unit {0}) (λ e. not (e.iface_num == i)) u.dev.endpoints
          (Each-any u.dev.endpoints) in
      let (claimed, x) = ensure_interface nusb i w in
      (
        elim (Result-cases claimed) [
          | inr (e, unclaimed) ↦
              inr (e, ground (arith, conf, sel, unclaimed), ground (arith, conf, sel))
          | inl (done, fine) ↦ elim (Result-cases (nusb.done x.calls (set_alt_setting i alt))) [
            | inr (e, refused) ↦ inr (
              Open.nusb e,
              ground (arith, conf, sel, fine, refused),
              ground (arith, conf, sel, fine, refused),
            )
            | inl (selected, answer) ↦ inl (
              ground (arith, conf, sel, fine, answer),
              ground (arith, conf, sel, fine, answer),
              (x.calls, ground (arith, conf, sel, fine, answer), answer),
            )
          ]
        ],
        elim (Option-cases (Map.get ep_addr v.dev.endpoints)) [
          | inl missing ↦ inl missing
          | inr (e, found) ↦
              let (_, other) =
                Each-get (λ e. Unit {0} × (not (e.iface_num == i) ≡ true)) ep_addr e w.dev.endpoints
                  (ap (Map.get ep_addr) (sym kept) ∙ found) away in
              inr (e, found, λ same. ground (arith, other, same, nat_beq_iff e.iface_num i))
        ],
      )
