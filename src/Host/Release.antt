-- ===== src/Host/Release.antt =====
-- Giving a captured device back, of crates/host-mac/src/lib.rs: the drop of `OpenedDevice`, and
-- `release_capture`.
pub mod Target
use usbipd_darwin.Common.{
  ℕ, List, [], ◌∷◌, ◌++◌, Option, none, some, Bool, true, false, ◌&&◌, not, Result, ok, err,
  map_err, map, find, ◌==◌, nat_eq, text_eq, if◌then◌else◌,
}
use usbipd_darwin.Host.Nusb.{DeviceInfo, NusbError}
use usbipd_darwin.Host.Devices.{format_busid}
use usbipd_darwin.Host.Open.{OpenedDevice, HostError}
use usbipd_darwin.Host.Open as Open
use usbipd_darwin.Host.Capture.{IoKit, IoCall, reenumerate_release}

-- What the environment answers at that time.
pub record Present : Type 0 where
  pub is_root : Bool
  pub listed : Result (List DeviceInfo) NusbError
  pub kit : IoKit

-- The nusb handle is dropped, the devices are listed, IOKit is called for a registry entry.
pub data ReleaseCall : Type 0 where
  close_handle list_devices : ReleaseCall
  io : ℕ → IoCall → ReleaseCall

unfoldable pub release_calls : IoKit → ℕ → List ReleaseCall
unfolding reenumerate_release
release_calls kit id = map (io id) (reenumerate_release kit id).0

-- `list_devices().wait().ok().and_then(|it| it.find(..))`
unfoldable pub candidate : Present → List ℕ → Option DeviceInfo
candidate now busid = elim now.listed as (λ _. Option DeviceInfo) [
  | err e ↦ none
  | ok infos ↦ find (λ i. format_busid i == busid) infos
]

unfoldable pub target : Option DeviceInfo → Option (ℕ × ℕ) → Option ℕ
target none vid_pid = none
target (some info) none = some info.registry_entry_id
target (some info) (some (vid, pid)) =
    if (info.vendor_id == vid) && (info.product_id == pid)
    then some info.registry_entry_id
    else none

-- The device without its caches, and the calls in their order.
unfoldable pub drop_opened : Present → OpenedDevice → OpenedDevice × List ReleaseCall
unfolding candidate target release_calls
drop_opened now dev = elim dev.captured_registry_id as (λ _. OpenedDevice × List ReleaseCall) [
  | none ↦ (dev, [])
  | some reg_id ↦ (
    record dev { captured_registry_id = none; interfaces = []; endpoints = [] },
    close_handle
        ∷ list_devices
        ∷ (elim (target (candidate now dev.busid) dev.captured_vid_pid) as (λ _. List ReleaseCall) [
          | none ↦ []
          | some id ↦ release_calls now.kit id
        ]),
  )
]

unfoldable pub release_capture : Present → List ℕ → Result (Unit {0}) HostError × List ReleaseCall
unfolding release_calls reenumerate_release
release_capture now busid =
    if not now.is_root
    then (ok tt, [])
    else elim now.listed as (λ _. Result (Unit {0}) HostError × List ReleaseCall) [
      | err e ↦ (err (Open.nusb e), list_devices ∷ [])
      | ok infos ↦
          elim (find (λ i. format_busid i == busid) infos)
            as (λ _. Result (Unit {0}) HostError × List ReleaseCall) [
              | none ↦ (ok tt, list_devices ∷ [])
              | some info ↦ (
                map_err Open.capture (reenumerate_release now.kit info.registry_entry_id).1,
                list_devices ∷ release_calls now.kit info.registry_entry_id,
              )
            ]
    ]
