-- ===== src/Host/Open.antt =====
-- Opening a device, of crates/host-mac/src/lib.rs: `maybe_capture`, `OpenedDevice::open` and
-- `descriptor_snapshot`. What nusb, IOKit and the clock answer is the record `Usb`.
pub mod Numbers
pub mod Wait
use usbipd_darwin.Common.{
  ℕ, zero, suc, ◌+◌, ◌/◌, ◌^◌, max, List, [], ◌∷◌, Option, none, some, Bool, true, false, ◌&&◌, not,
  Result, ok, err, ◌>>=◌, map_err, ok_or, ◌==◌, nat_eq, text_eq, find, filter, map, length, bit_and,
  ltb, if◌then◌else◌, ℤ,
}
use usbipd_darwin.Common.Map.{Map}
use usbipd_darwin.Host.Nusb.{DeviceInfo, NusbError}
use usbipd_darwin.Host.Ids.{derive_bus_dev, pack_devid}
use usbipd_darwin.Host.Devices.{UsbInterface, UsbDevice, format_busid}

-- crates/host-mac/src/capture.rs
pub data CaptureError : Type 0 where
  no_service : ℕ → CaptureError
  plug_in query_interface open_seize re_enumerate : ℤ → CaptureError

pub data HostError : Type 0 where
  nusb : NusbError → HostError
  transfer : ℕ → HostError
  not_found : List ℕ → HostError
  endpoint_not_found unsupported_transfer : ℕ → HostError
  invalid_setup : HostError
  capture : CaptureError → HostError
  reenumerate_timeout : HostError

-- One alternate setting of an interface in a configuration descriptor.
pub record AltSetting : Type 0 where
  pub number : ℕ
  pub alternate_setting : ℕ
  pub class : ℕ
  pub subclass : ℕ
  pub protocol : ℕ

pub record Configuration : Type 0 where
  pub configuration_value : ℕ
  pub alt_settings : List AltSetting

-- What the environment answers while a device is opened: the first listing, whether the process is
-- root, the outcome of the capture of a registry entry, the listing and the clock at each round of the
-- wait, and what the opened device says of its configurations.
pub record Usb : Type 0 where
  pub listed : Result (List DeviceInfo) NusbError
  pub is_root : Bool
  pub reenumerate_with_capture : ℕ → Result (Unit {0}) CaptureError
  pub relisted : ℕ → Result (List DeviceInfo) NusbError
  pub deadline_passed : ℕ → Bool
  pub open_device : DeviceInfo → Result (Unit {0}) NusbError
  pub active_configuration : Option Configuration
  pub configurations : ℕ

pub data EpKind : Type 0 where
  bulk interrupt : EpKind

-- An open endpoint: its interface, and the kind and the direction that `AnyEp` tells apart, the
-- direction by the address that it stands under.
pub record EndpointEntry : Type 0 where
  pub iface_num : ℕ
  pub kind : EpKind

-- The handle and its lazily filled caches: the claimed interfaces, the alternate setting that was
-- selected for an interface, and the open endpoints by their addresses.
pub record OpenedDevice : Type 0 where
  pub busid : List ℕ
  pub devid : ℕ
  pub interfaces : List ℕ
  pub alt_settings : Map ℕ ℕ
  pub endpoints : Map ℕ EndpointEntry
  pub captured_registry_id : Option ℕ
  pub captured_vid_pid : Option (ℕ × ℕ)

-- `i.location_id() == location_id && i.vendor_id() == vid && i.product_id() == pid`
abbrev pub same_device : DeviceInfo → DeviceInfo → Bool
same_device info i =
    i.location_id == info.location_id
    && (i.vendor_id == info.vendor_id && i.product_id == info.product_id)

-- The rounds of the wait that are left, and the number of the round. Each round sleeps 50 ms at least,
-- so the deadline of 5 s has passed when the last of 100 rounds looks at the clock.
unfoldable pub wait_reappear : Usb → DeviceInfo → ℕ → ℕ → Result (DeviceInfo × Option ℕ) HostError
wait_reappear usb info zero tries = err reenumerate_timeout
wait_reappear usb info (suc rounds) tries =
    let later = wait_reappear usb info rounds (tries + 1) in
    do
      infos ← map_err nusb (usb.relisted tries)
      elim (find (same_device info) infos) as (λ _. Result (DeviceInfo × Option ℕ) HostError) [
        | some new_info ↦ ok (new_info, some new_info.registry_entry_id)
        | none ↦ if usb.deadline_passed tries then err reenumerate_timeout else later
      ]

unfoldable pub maybe_capture : Usb → DeviceInfo → Result (DeviceInfo × Option ℕ) HostError
maybe_capture usb info =
    if not usb.is_root
    then ok (info, none)
    else elim (usb.reenumerate_with_capture info.registry_entry_id)
        as (λ _. Result (DeviceInfo × Option ℕ) HostError) [
          | err e ↦ ok (info, none)
          | ok _ ↦ wait_reappear usb info 100 1
        ]

unfoldable pub open_busid : Usb → List ℕ → Result OpenedDevice HostError
open_busid usb busid = do
  infos ← map_err nusb usb.listed
  found ← ok_or (find (λ i. format_busid i == busid) infos) (not_found busid)
  (info, captured_registry_id) ← maybe_capture usb found
  let (busnum, devnum) = derive_bus_dev info
  _ ← map_err nusb (usb.open_device info)
  ok (record {
    busid = busid;
    devid = pack_devid busnum devnum;
    interfaces = [];
    alt_settings = [];
    endpoints = [];
    captured_registry_id = captured_registry_id;
    captured_vid_pid = elim captured_registry_id as (λ _. Option (ℕ × ℕ)) [
      | none ↦ none
      | some _ ↦ some (info.vendor_id, info.product_id)
    ];
  })

alt_zero_interfaces : List AltSetting → List UsbInterface
alt_zero_interfaces [] = []
alt_zero_interfaces (a ∷ as') =
    let rest = alt_zero_interfaces as' in
    if a.alternate_setting == 0
    then record { class = a.class; subclass = a.subclass; protocol = a.protocol } ∷ rest
    else rest

unfoldable pub descriptor_snapshot : Usb → OpenedDevice → UsbDevice
unfolding alt_zero_interfaces
descriptor_snapshot usb dev = record {
  busid = dev.busid;
  busnum = dev.devid / 2 ^ 16;
  devnum = bit_and dev.devid 0xffff;
  speed = 0;
  vendor_id = 0;
  product_id = 0;
  bcd_device = 0;
  class = 0;
  subclass = 0;
  protocol = 0;
  configuration_value = elim usb.active_configuration as (λ _. ℕ) [
    | none ↦ 0
    | some c ↦ c.configuration_value
  ];
  num_configurations = max (if ltb usb.configurations 256 then usb.configurations else 1) 1;
  manufacturer = none;
  product = none;
  serial = none;
  interfaces = elim usb.active_configuration as (λ _. List UsbInterface) [
    | none ↦ []
    | some c ↦ alt_zero_interfaces c.alt_settings
  ];
}
