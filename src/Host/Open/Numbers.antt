-- ===== src/Host/Open/Numbers.antt =====
-- The numbers of an opened device.
use usbipd_darwin.Common.{
  ℕ, ◌≤◌, ◌≡◌, inl, inr, refl, arith, List, ok, Result-cases, ◌==◌, text_eq, Option-cases, find,
}
use usbipd_darwin.Host.Nusb.{DeviceInfo}
use usbipd_darwin.Host.Ids.{derive_bus_dev, derive_bus_dev_bounds, pack_devid, pack_devid_lem}
use usbipd_darwin.Host.Devices.{format_busid}
use usbipd_darwin.Host.Open.{Usb, OpenedDevice, maybe_capture, open_busid, descriptor_snapshot}

open_busid-devid :
    (usb : Usb) (busid : List ℕ) (dev : OpenedDevice)
    → open_busid usb busid ≡ ok dev
    → (i : DeviceInfo) × (dev.devid ≡ pack_devid (derive_bus_dev i).0 (derive_bus_dev i).1)
      × (dev.busid ≡ busid)
unfolding open_busid
open_busid-devid usb busid dev e = elim (Result-cases usb.listed) [
  | inr (x, h1) ↦ absurd (ground arith)
  | inl (infos, h1) ↦ elim (Option-cases (find (λ i. format_busid i == busid) infos)) [
    | inl h2 ↦ absurd (ground arith)
    | inr (found, h2) ↦ elim (Result-cases (maybe_capture usb found)) [
      | inr (x, h3) ↦ absurd (ground arith)
      | inl ((info, captured), h3) ↦ (info, ground arith, ground arith)
    ]
  ]
]

-- An opened device shows a client a bus and a device number that fit a byte each, are not zero, and
-- pack to the devid that the device was opened with.
pub open_busid-snapshot :
    (usb : Usb) (busid : List ℕ) (dev : OpenedDevice)
    → open_busid usb busid ≡ ok dev
    → let snap = descriptor_snapshot usb dev in
      ((1 ≤ snap.busnum) × (snap.busnum ≤ 255))
      × ((1 ≤ snap.devnum) × (snap.devnum ≤ 255))
      × (pack_devid snap.busnum snap.devnum ≡ dev.devid)
      × (snap.busid ≡ busid)
unfolding descriptor_snapshot derive_bus_dev
open_busid-snapshot usb busid dev e =
    let (i, packed, same) = open_busid-devid usb busid dev e in
    let (hb, hd) = derive_bus_dev_bounds i.bus_id i.port_chain i.device_address in
    let (_, high, low) =
      pack_devid_lem (derive_bus_dev i).0 (derive_bus_dev i).1 (omega arith) (omega arith) in
    rw (packed, high, low) (hb, hd, refl, same)
