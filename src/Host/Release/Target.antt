-- ===== src/Host/Release/Target.antt =====
-- Which device the drop of an `OpenedDevice` of crates/host-mac/src/lib.rs gives back.
use usbipd_darwin.Common.{
  ℕ, zero, suc, ◌+◌, nat_beq_iff, ◌≢◌, List, [], ◌∷◌, Option, none, some, Bool, true, ◌&&◌, ok, ◌≡◌,
  ◌⊎◌, inl, inr, subst, ◌∙◌, ap, arith, find, ◌==◌, nat_eq, text_eq, Option-cases, Bool-cases,
  Result-cases,
}
use usbipd_darwin.Host.Nusb.{DeviceInfo}
use usbipd_darwin.Host.Devices.{format_busid}
use usbipd_darwin.Host.Open.{
  OpenedDevice, Usb, open_busid, maybe_capture, same_device, wait_reappear,
}
use usbipd_darwin.Host.Transfer.Calls.{Answers, Use}
use usbipd_darwin.Host.Transfer.Origin.{origin, operate_all-origin}
use usbipd_darwin.Host.Transfer.Sequence.{Operation, operate_all}
use usbipd_darwin.Host.Release.{
  Present, close_handle, list_devices, candidate, target, release_calls, drop_opened,
}

find-holds :
    (p : DeviceInfo → Bool) (infos : List DeviceInfo) (i : DeviceInfo)
    → find p infos ≡ some i
    → p i ≡ true
find-holds p [] i h = absurd (ground arith)
find-holds p (j ∷ js) i h = ground (arith, find-holds p js i)

-- The devices that `maybe_capture` leaves: the one that was found, or one of the same ids.
wait_reappear-ids :
    (usb : Usb) (found : DeviceInfo) (rounds tries : ℕ) (info : DeviceInfo) (captured : Option ℕ)
    → wait_reappear usb found rounds tries ≡ ok (info, captured)
    → (info.vendor_id ≡ found.vendor_id) × (info.product_id ≡ found.product_id)
unfolding wait_reappear
wait_reappear-ids usb found zero tries info captured h = absurd (ground arith)
wait_reappear-ids usb found (suc rounds) tries info captured h =
    elim (Result-cases (usb.relisted tries)) [
      | inr (x, h1) ↦ absurd (ground arith)
      | inl (infos, h1) ↦ elim (Option-cases (find (same_device found) infos)) [
        | inl none_yet ↦ wait_reappear-ids usb found rounds (tries + 1) info captured (ground arith)
        | inr (new_info, there) ↦ ground (
          arith,
          find-holds (same_device found) infos new_info there,
          nat_beq_iff new_info.vendor_id found.vendor_id,
          nat_beq_iff new_info.product_id found.product_id,
        )
      ]
    ]

maybe_capture-ids :
    (usb : Usb) (found info : DeviceInfo) (captured : Option ℕ)
    → maybe_capture usb found ≡ ok (info, captured)
    → (info.vendor_id ≡ found.vendor_id) × (info.product_id ≡ found.product_id)
unfolding maybe_capture
maybe_capture-ids usb found info captured h =
    ground (arith, wait_reappear-ids usb found 100 1 info captured)

-- The device that was listed under the busid when the device was opened.
open_busid-origin :
    (usb : Usb) (busid : List ℕ) (dev : OpenedDevice)
    → open_busid usb busid ≡ ok dev
    → (dev.busid ≡ busid)
      × (infos : List DeviceInfo) × (found : DeviceInfo) × (usb.listed ≡ ok infos)
      × (find (λ i. format_busid i == busid) infos ≡ some found)
      × ((dev.captured_registry_id ≡ none)
          ⊎ (id : ℕ) × (dev.captured_registry_id ≡ some id)
            × (dev.captured_vid_pid ≡ some (found.vendor_id, found.product_id)))
unfolding open_busid
open_busid-origin usb busid dev e = elim (Result-cases usb.listed) [
  | inr (x, h1) ↦ absurd (ground arith)
  | inl (infos, h1) ↦ elim (Option-cases (find (λ i. format_busid i == busid) infos)) [
    | inl h2 ↦ absurd (ground arith)
    | inr (found, h2) ↦ elim (Result-cases (maybe_capture usb found)) [
      | inr (x, h3) ↦ absurd (ground arith)
      | inl ((info, none), h3) ↦ (ground arith, infos, found, h1, h2, inl (ground arith))
      | inl ((info, some id), h3) ↦ (
        ground arith,
        infos,
        found,
        h1,
        h2,
        inr (id, ground arith, ground (arith, maybe_capture-ids usb found info (some id) h3)),
      )
    ]
  ]
]

-- What the drop of a device that was captured leaves and calls.
abbrev pub Left : Present → OpenedDevice → List ℕ → ℕ × ℕ → Type 0
Left now dev busid (vid, pid) =
    let (left, calls) = drop_opened now dev in
    (left.interfaces ≡ [])
    × (left.endpoints ≡ [])
    × (((calls ≡ close_handle ∷ list_devices ∷ [])
          × ((candidate now busid ≡ none)
              ⊎ (i : DeviceInfo) × (candidate now busid ≡ some i)
                × ((i.vendor_id ≢ vid) ⊎ (i.product_id ≢ pid))))
        ⊎ (i : DeviceInfo) × (candidate now busid ≡ some i)
          × (i.vendor_id ≡ vid)
          × (i.product_id ≡ pid)
          × (calls ≡ close_handle ∷ list_devices ∷ release_calls now.kit i.registry_entry_id))

-- A captured device that is dropped.
drop_captured :
    (now : Present) (dev : OpenedDevice) (id : ℕ) (ids : ℕ × ℕ)
    → dev.captured_registry_id ≡ some id
    → dev.captured_vid_pid ≡ some ids
    → Left now dev dev.busid ids
unfolding drop_opened target
drop_captured now dev id (vid, pid) h g = elim (Option-cases (candidate now dev.busid)) [
  | inl gone ↦ (ground arith, ground arith, inl (ground (arith, gone), inl gone))
  | inr (i, there) ↦ elim (Bool-cases ((i.vendor_id == vid) && (i.product_id == pid))) [
    | inl same ↦ (
      ground arith,
      ground arith,
      inr (
        i,
        there,
        ground (arith, same, nat_beq_iff i.vendor_id vid),
        ground (arith, same, nat_beq_iff i.product_id pid),
        ground (arith, there, same),
      ),
    )
    | inr other ↦ (
      ground arith,
      ground arith,
      inl (
        ground (arith, there, other),
        inr (
          i,
          there,
          ground (arith, other, nat_beq_iff i.vendor_id vid, nat_beq_iff i.product_id pid),
        ),
      ),
    )
  ]
]

-- A device that was opened with a busid, used in any way and then dropped. If it was not captured, the
-- drop does nothing. If it was, no interface and no endpoint is left, the handle is closed and the
-- devices are listed; when a device is listed under the busid that has the vendor and the product of
-- the one that was listed there at the opening, IOKit is called to give that device back, and
-- otherwise it is not called.
pub drop_opened-same_device :
    (usb : Usb) (nusb : Answers) (now : Present) (busid : List ℕ) (dev : OpenedDevice)
    (os : List Operation)
    → open_busid usb busid ≡ ok dev
    → let u = operate_all nusb os (record { dev = dev; calls = [] }) in
      let (left, calls) = drop_opened now u.dev in
      (infos : List DeviceInfo) × (found : DeviceInfo) × (usb.listed ≡ ok infos)
      × (find (λ i. format_busid i == busid) infos ≡ some found)
      × ((dev.captured_registry_id ≡ none) × (left ≡ u.dev) × (calls ≡ [])
          ⊎ Left now u.dev busid (found.vendor_id, found.product_id))
unfolding drop_opened
drop_opened-same_device usb nusb now busid dev os opened =
    let u : Use = operate_all nusb os (record { dev = dev; calls = [] }) in
    let same : origin u.dev ≡ origin dev =
      operate_all-origin nusb os (record { dev = dev; calls = [] }) in
    let kept : u.dev.captured_registry_id ≡ dev.captured_registry_id = ap (λ o. o.captured) same in
    let (busid_same, infos, found, listed, first, noted) = open_busid-origin usb busid dev opened in
    let at_busid : u.dev.busid ≡ busid = ap (λ o. o.busid) same ∙ busid_same in
    elim noted [
      | inl free ↦ (
        infos,
        found,
        listed,
        first,
        inl (free, ground (arith, kept, free), ground (arith, kept, free)),
      )
      | inr (id, captured, ids) ↦
          let out =
            drop_captured now u.dev id (found.vendor_id, found.product_id) (kept ∙ captured)
              (ap (λ o. o.vid_pid) same ∙ ids) in
          (
            infos,
            found,
            listed,
            first,
            inr (subst (λ b. Left now u.dev b (found.vendor_id, found.product_id)) at_busid out),
          )
    ]
