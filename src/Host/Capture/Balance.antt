-- ===== src/Host/Capture/Balance.antt =====
-- What the calls of crates/host-mac/src/capture.rs hold and give back.
use usbipd_darwin.Common.{
  ℕ, List, [], ◌∷◌, Option, none, some, Bool, true, false, ◌&&◌, not, ok, ◌≡◌, ◌↔◌, inl, inr, ◌==◌,
  nat_eq, if◌then◌else◌, arith, Bool-cases,
}
use usbipd_darwin.Host.Capture.{
  IoKit, IoCall, get_service, create_plugin, query_device, release_plugin, seize_device,
  close_device, release_device, release_service, reenumerate, is_success, call, at_drop,
  reenumerate_with_options,
}

-- What a caller of IOKit holds: references to the three objects, and the device itself.
pub record Held : Type 0 where
  pub service : Bool
  pub plugin : Bool
  pub device : Bool
  pub seized : Bool

abbrev pub nothing_held : Held
nothing_held = record { service = false; plugin = false; device = false; seized = false }

require : Bool → Held → Option Held
require p h = if p then some h else none

-- The rules of IOKit: an object is used and released only while it is held, at most one reference to
-- each is held, only the owner of the device re-enumerates it and closes it, and a device is closed
-- before its last reference goes. A call that fails gives no reference and no ownership.
unfoldable pub held_after : IoKit → ℕ → IoCall → Held → Option Held
unfolding require
held_after kit id get_service h =
    require (not h.service) (record h { service = not (kit.service id == 0) })
held_after kit id create_plugin h =
    require (h.service && not h.plugin)
      (record h { plugin = is_success (kit.plugin_code id) && kit.has_plugin id })
held_after kit id query_device h =
    require (h.plugin && not h.device)
      (record h { device = is_success (kit.query_code id) && kit.has_device id })
held_after kit id release_plugin h = require h.plugin (record h { plugin = false })
held_after kit id seize_device h =
    require (h.device && not h.seized) (record h { seized = is_success (kit.seize_code id) })
held_after kit id (reenumerate options) h = require (h.device && h.seized) h
held_after kit id close_device h = require (h.device && h.seized) (record h { seized = false })
held_after kit id release_device h =
    require (h.device && not h.seized) (record h { device = false })
held_after kit id release_service h = require h.service (record h { service = false })

unfoldable pub replay : IoKit → ℕ → List IoCall → Held → Option Held
replay kit id [] h = some h
replay kit id (c ∷ cs) h = elim (held_after kit id c h) as (λ _. Option Held) [
  | none ↦ none
  | some h' ↦ replay kit id cs h'
]

unfoldable pub seizes : IoKit → ℕ → Bool
seizes kit id =
    kit.matches id
    && (not (kit.service id == 0)
        && ((is_success (kit.plugin_code id) && kit.has_plugin id)
            && ((is_success (kit.query_code id) && kit.has_device id)
                && is_success (kit.seize_code id))))

-- Whatever IOKit answers, where a call that fails gives nothing to hold: the calls that re-enumerate a
-- device follow the rules of IOKit from nothing held, and at the end nothing is held; each reference
-- that was given is released once, and a device that was opened is closed.
pub reenumerate_with_options_balanced :
    (kit : IoKit) (id options : ℕ)
    → replay kit id (reenumerate_with_options kit id options).0 nothing_held ≡ some nothing_held
unfolding reenumerate_with_options replay held_after call at_drop
reenumerate_with_options_balanced kit id options = elim (Bool-cases (kit.matches id)) [
  | inr h ↦ ground (arith, h)
  | inl h ↦ elim (Bool-cases (kit.service id == 0)) [
    | inl g ↦ ground (arith, h, g)
    | inr g ↦ elim (Bool-cases (is_success (kit.plugin_code id) && kit.has_plugin id)) [
      | inr p ↦ ground (arith, h, g, p)
      | inl p ↦ elim (Bool-cases (is_success (kit.query_code id) && kit.has_device id)) [
        | inr q ↦ ground (arith, h, g, p, q)
        | inl q ↦ elim (Bool-cases (is_success (kit.seize_code id))) [
          | inr s ↦ ground (arith, h, g, p, q, s)
          | inl s ↦ ground (arith, h, g, p, q, s)
        ]
      ]
    ]
  ]
]

-- The options of the re-enumerations among the calls.
unfoldable pub reenumerations : List IoCall → List ℕ
reenumerations [] = []
reenumerations (reenumerate options ∷ cs) = options ∷ reenumerations cs
reenumerations (_ ∷ cs) = reenumerations cs

-- The device is re-enumerated with the options exactly when IOKit has given it to the caller, once and
-- with no others; the result is good exactly when that has succeeded too.
pub reenumerate_with_options-seizes :
    (kit : IoKit) (id options : ℕ)
    → let (calls, r) = reenumerate_with_options kit id options in
      (reenumerations calls ≡ (if seizes kit id then options ∷ [] else []))
      × ((r ≡ ok tt)
          ↔ (seizes kit id ≡ true) × (is_success (kit.reenumerate_code id options) ≡ true))
unfolding reenumerate_with_options reenumerations seizes call at_drop
reenumerate_with_options-seizes kit id options = elim (Bool-cases (kit.matches id)) [
  | inr h ↦ (ground (arith, h), ground (arith, h))
  | inl h ↦ elim (Bool-cases (kit.service id == 0)) [
    | inl g ↦ (ground (arith, h, g), ground (arith, h, g))
    | inr g ↦ elim (Bool-cases (is_success (kit.plugin_code id) && kit.has_plugin id)) [
      | inr p ↦ (ground (arith, h, g, p), ground (arith, h, g, p))
      | inl p ↦ elim (Bool-cases (is_success (kit.query_code id) && kit.has_device id)) [
        | inr q ↦ (ground (arith, h, g, p, q), ground (arith, h, g, p, q))
        | inl q ↦ elim (Bool-cases (is_success (kit.seize_code id))) [
          | inr s ↦ (ground (arith, h, g, p, q, s), ground (arith, h, g, p, q, s))
          | inl s ↦ (ground (arith, h, g, p, q, s), ground (arith, h, g, p, q, s))
        ]
      ]
    ]
  ]
]
