-- ===== src/Host/Transfer/Caches.antt =====
-- What holds of the caches of an opened device through its transfers.
use usbipd_darwin.Common.{
  ℕ, List, [], ◌∷◌, some, Bool, true, not, ok, ◌≡◌, inl, inr, refl, sym, subst, arith, ◌==◌, nat_eq,
  bit_and, Option-cases, Bool-cases, Result-cases,
}
use usbipd_darwin.Common.Map
use usbipd_darwin.Common.Map.{Map}
use usbipd_darwin.Host.Setup.{SetupPacket, is_set_configuration, is_set_interface, is_in}
use usbipd_darwin.Host.Open.{EpKind, EndpointEntry, OpenedDevice}
use usbipd_darwin.Host.Transfer.Calls.{
  set_configuration, claim_interface, open_endpoint, set_alt_setting, Answers, Use, T, ask, receive,
  complete,
}
use usbipd_darwin.Host.Transfer.Endpoints.{
  is_claimed, endpoint_kind, ensure_interface, ensure_endpoint, invalidate_interface_endpoints,
}
use usbipd_darwin.Host.Transfer.Control.{configure, select_setting, control_transfer}
use usbipd_darwin.Host.Transfer.Transmit.{data_transfer}

-- What holds of every entry of a table.
abbrev pub Each : (EndpointEntry → Type 0) → Map ℕ EndpointEntry → Type 0
Each P [] = Unit {0}
Each P ((k, e) ∷ m) = P e × Each P m

pub Each-insert :
    (P : EndpointEntry → Type 0) (k : ℕ) (e : EndpointEntry) (m : Map ℕ EndpointEntry)
    → P e
    → Each P m
    → Each P (Map.insert k e m)
unfolding Map.insert
Each-insert P k e [] p h = (p, tt)
Each-insert P k e ((j, d) ∷ m) p (pd, h) = elim (Bool-cases (j == k)) [
  | inl same ↦ rw same (p, h)
  | inr other ↦ rw other (pd, Each-insert P k e m p h)
]

pub Each-get :
    (P : EndpointEntry → Type 0) (k : ℕ) (e : EndpointEntry) (m : Map ℕ EndpointEntry)
    → Map.get k m ≡ some e
    → Each P m
    → P e
unfolding Map.get
Each-get P k e [] at h = absurd (ground arith)
Each-get P k e ((j, d) ∷ m) at (pd, h) = elim (Bool-cases (j == k)) [
  | inl same ↦ subst P (ground (arith, at, same)) pd
  | inr other ↦ Each-get P k e m (ground (arith, at, other)) h
]

pub Each-map :
    (P Q : EndpointEntry → Type 0) (m : Map ℕ EndpointEntry)
    → ((e : EndpointEntry) → P e → Q e)
    → Each P m
    → Each Q m
Each-map P Q [] f h = tt
Each-map P Q ((j, d) ∷ m) f (p, h) = (f d p, Each-map P Q m f h)

pub Each-retain :
    (P : EndpointEntry → Type 0) (keep : EndpointEntry → Bool) (m : Map ℕ EndpointEntry)
    → Each P m
    → Each (λ e. P e × (keep e ≡ true)) (Map.retain keep m)
unfolding Map.retain
Each-retain P keep [] h = tt
Each-retain P keep ((j, d) ∷ m) (p, h) = elim (Bool-cases (keep d)) [
  | inl kept ↦ rw kept ((p, kept), Each-retain P keep m h)
  | inr out ↦ rw out (Each-retain P keep m h)
]

abbrev pub Claimed : List ℕ → EndpointEntry → Type 0
Claimed interfaces e = is_claimed e.iface_num interfaces ≡ true

-- Every open endpoint belongs to a claimed interface.
abbrev pub IsOwned : OpenedDevice → Type 0
IsOwned dev = Each (Claimed dev.interfaces) dev.endpoints

-- What an operation on the caches keeps.
abbrev pub Keeps : {A : Type 0} → T A → Type 0
Keeps m = (u : Use) → IsOwned u.dev → IsOwned (m u).1.dev

pub claimed-cons :
    (n num : ℕ) (is : List ℕ) → is_claimed n is ≡ true → is_claimed n (num ∷ is) ≡ true
unfolding is_claimed
claimed-cons n num is h = ground arith

pub invalidate-Keeps : (num : ℕ) → Keeps (invalidate_interface_endpoints num)
unfolding invalidate_interface_endpoints
invalidate-Keeps num u h =
    Each-map (λ e. Claimed u.dev.interfaces e × (not (e.iface_num == num) ≡ true))
      (Claimed u.dev.interfaces) (Map.retain (λ e. not (e.iface_num == num)) u.dev.endpoints)
      (λ e c. c.0)
      (Each-retain (Claimed u.dev.interfaces) (λ e. not (e.iface_num == num)) u.dev.endpoints h)

module _ (nusb : Answers) where
  ensure_interface-Keeps : (num : ℕ) → Keeps (ensure_interface nusb num)
  unfolding ensure_interface
  ensure_interface-Keeps num u h = elim (Bool-cases (is_claimed num u.dev.interfaces)) [
    | inl there ↦ rw there h
    | inr missing ↦ elim (Result-cases (nusb.done u.calls (claim_interface num))) [
      | inr (e, failed) ↦ rw (missing, failed) h
      | inl (x, fine) ↦
          rw (missing, fine)
            (Each-map (Claimed u.dev.interfaces) (Claimed (num ∷ u.dev.interfaces)) u.dev.endpoints
              (λ e c. claimed-cons e.iface_num num u.dev.interfaces c) h)
    ]
  ]

  ensure_interface-ok :
      (num : ℕ) (u : Use)
      → (ensure_interface nusb num u).0 ≡ ok tt
      → is_claimed num (ensure_interface nusb num u).1.dev.interfaces ≡ true
  unfolding ensure_interface is_claimed
  ensure_interface-ok num u fine = elim (Bool-cases (is_claimed num u.dev.interfaces)) [
    | inl there ↦ rw there there
    | inr missing ↦ elim (Result-cases (nusb.done u.calls (claim_interface num))) [
      | inr (e, failed) ↦ absurd (ground arith)
      | inl (x, done) ↦ rw (missing, done, Map.beq_refl num) refl
    ]
  ]

  ensure_endpoint-Keeps :
      (ep_addr iface_num : ℕ) (kind : EpKind)
      → Keeps (ensure_endpoint nusb ep_addr (iface_num, kind))
  unfolding ensure_endpoint ask
  ensure_endpoint-Keeps ep_addr iface_num kind u h =
      let v : Use = (ensure_interface nusb iface_num u).1 in
      let hv : IsOwned v.dev = ensure_interface-Keeps iface_num u h in
      let entry : EndpointEntry = record { iface_num = iface_num; kind = kind } in
      let grown : OpenedDevice = record v.dev {
        endpoints = Map.insert ep_addr entry v.dev.endpoints;
      } in
      let result : OpenedDevice = (ensure_endpoint nusb ep_addr (iface_num, kind) u).1.dev in
      elim (Option-cases (Map.get ep_addr u.dev.endpoints)) [
        | inr (there, found) ↦
            let same : u.dev ≡ result = ground (arith, found) in subst IsOwned same h
        | inl missing ↦ elim (Result-cases (ensure_interface nusb iface_num u).0) [
          | inr (e, failed) ↦
              let same : v.dev ≡ result = ground (arith, missing, failed) in subst IsOwned same hv
          | inl (x, fine) ↦
              elim (Result-cases (nusb.done v.calls (open_endpoint iface_num ep_addr kind))) [
                | inr (e, failed) ↦
                    let same : v.dev ≡ result = ground (arith, missing, fine, failed) in
                    subst IsOwned same hv
                | inl (y, done) ↦
                    let same : grown ≡ result = ground (arith, missing, fine, done) in
                    subst IsOwned same (
                      Each-insert (Claimed v.dev.interfaces) ep_addr entry v.dev.endpoints
                        (ensure_interface-ok iface_num u fine) hv)
              ]
        ]
      ]

  configure-Keeps : (cfg : ℕ) → Keeps (configure nusb cfg)
  unfolding configure
  configure-Keeps cfg u h = elim (Result-cases (nusb.done u.calls (set_configuration cfg))) [
    | inr (e, failed) ↦ rw failed tt
    | inl (x, done) ↦ rw done tt
  ]

  select_setting-Keeps : (iface_num alt : ℕ) → Keeps (select_setting nusb iface_num alt)
  unfolding select_setting ask
  select_setting-Keeps iface_num alt u h =
      let w : Use = (invalidate_interface_endpoints iface_num u).1 in
      let v : Use = (ensure_interface nusb iface_num w).1 in
      let hv : IsOwned v.dev =
        ensure_interface-Keeps iface_num w (invalidate-Keeps iface_num u h) in
      elim (Result-cases (ensure_interface nusb iface_num w).0) [
        | inr (e, failed) ↦ rw failed hv
        | inl (x, fine) ↦ elim (Result-cases (nusb.done v.calls (set_alt_setting iface_num alt))) [
          | inr (e, failed) ↦ rw (fine, failed) hv
          | inl (y, done) ↦ rw (fine, done) hv
        ]
      ]

  pub control_transfer-Keeps :
      (setup : SetupPacket) (out_data : List ℕ) → Keeps (control_transfer nusb setup out_data)
  unfolding control_transfer receive
  control_transfer-Keeps setup out_data u h = elim (Bool-cases (is_set_configuration setup)) [
    | inl conf ↦ rw conf (configure-Keeps (bit_and setup.w_value 0xff) u h)
    | inr no_conf ↦ elim (Bool-cases (is_set_interface setup)) [
      | inl sel ↦
          rw (no_conf, sel)
            (select_setting-Keeps (bit_and setup.w_index 0xff) (bit_and setup.w_value 0xff) u h)
      | inr no_sel ↦ elim (Bool-cases (is_in setup)) [
        | inl into ↦ rw (no_conf, no_sel, into) h
        | inr out ↦
            let same : u.dev ≡ (control_transfer nusb setup out_data u).1.dev =
              ground (arith, no_conf, no_sel, out) in
            subst IsOwned same h
      ]
    ]
  ]

  endpoint_kind-same : (ep_addr : ℕ) (u : Use) → (endpoint_kind nusb ep_addr u).1 ≡ u
  unfolding endpoint_kind
  endpoint_kind-same ep_addr u = ground arith

  pub data_transfer-Keeps :
      (ep_addr size : ℕ) (out_data : List ℕ) → Keeps (data_transfer nusb ep_addr size out_data)
  unfolding data_transfer complete
  data_transfer-Keeps ep_addr size out_data u h =
      elim (Result-cases (endpoint_kind nusb ep_addr u).0) [
        | inr (e, failed) ↦
            rw failed (subst (λ x. IsOwned x.dev) (sym (endpoint_kind-same ep_addr u)) h)
        | inl ((iface_num, kind), fine) ↦
            let w : Use = (endpoint_kind nusb ep_addr u).1 in
            let v : Use = (ensure_endpoint nusb ep_addr (iface_num, kind) w).1 in
            let hv : IsOwned v.dev =
              ensure_endpoint-Keeps ep_addr iface_num kind w
                (subst (λ x. IsOwned x.dev) (sym (endpoint_kind-same ep_addr u)) h) in
            elim (Result-cases (ensure_endpoint nusb ep_addr (iface_num, kind) w).0) [
              | inr (e, failed) ↦ rw (fine, failed) hv
              | inl (entry, opened) ↦
                  let same : v.dev ≡ (data_transfer nusb ep_addr size out_data u).1.dev =
                    ground (arith, fine, opened) in
                  subst IsOwned same hv
            ]
      ]
