-- ===== src/Tests/Capture.antt =====
-- The capture of a device and its release, of crates/host-mac/src/lib.rs and capture.rs.
use usbipd_darwin.Common.{
  ◌+◌, List, [], ◌∷◌, none, some, true, ok, ◌≡◌, ◌⊎◌, refl, arith, find, text_eq, nat_eq, ◌==◌, leb,
  pos,
}
use usbipd_darwin.Host.Nusb.{DeviceInfo}
use usbipd_darwin.Host.Devices.{format_busid, join_ports, u8_to_string}
use usbipd_darwin.Host.Ids.{derive_bus_dev}
use usbipd_darwin.Host.Open.{Usb, OpenedDevice, open_busid, maybe_capture, wait_reappear}
use usbipd_darwin.Host.Open.Wait.{wait_reappear_ends}
use usbipd_darwin.Host.Transfer.Sequence.{operate_all}
use usbipd_darwin.Host.Capture.{IoKit, reenumerate_with_options, capture_device_mask}
use usbipd_darwin.Host.Capture.Balance.{replay, nothing_held, reenumerate_with_options_balanced}
use usbipd_darwin.Host.Release.{Present, drop_opened}
use usbipd_darwin.Host.Release.Target.{Left, drop_opened-same_device}
use usbipd_darwin.Tests.Samples.{stick_info, stick_busid, quiet_usb, opened_stick}
use usbipd_darwin.Tests.Transfer.{stick_answers, reading}

-- IOKit gives the device, and re-enumerates it.
abbrev willing : IoKit
willing = record {
  matches = λ _. true;
  service = λ id. id + 1;
  plugin_code = λ _. pos 0;
  has_plugin = λ _. true;
  query_code = λ _. pos 0;
  has_device = λ _. true;
  seize_code = λ _. pos 0;
  reenumerate_code = λ _ _. pos 0;
}

reenumerate_with_options_balanced_example :
    replay willing 9 (reenumerate_with_options willing 9 capture_device_mask).0 nothing_held
    ≡ some nothing_held
reenumerate_with_options_balanced_example =
    reenumerate_with_options_balanced willing 9 capture_device_mask

abbrev pub later : Present
later = record { is_root = true; listed = ok (stick_info ∷ []); kit = willing }

-- The daemon is root, and the stick comes back at the first look, with another registry entry.
abbrev returned : DeviceInfo
returned = record stick_info { registry_entry_id = 12 }

abbrev root_usb : Usb
root_usb = record quiet_usb { is_root = true; relisted = λ _. ok (returned ∷ []) }

abbrev captured_stick : OpenedDevice
captured_stick = record opened_stick {
  captured_registry_id = some 12;
  captured_vid_pid = some (0x0781, 0x5530);
}

stick_captured : open_busid root_usb stick_busid ≡ ok captured_stick
unfolding open_busid maybe_capture wait_reappear derive_bus_dev format_busid join_ports u8_to_string
stick_captured = refl

drop_opened-same_device_example :
    let u = operate_all stick_answers reading (record { dev = captured_stick; calls = [] }) in
    let (left, calls) = drop_opened later u.dev in
    (infos : List DeviceInfo) × (found : DeviceInfo) × (root_usb.listed ≡ ok infos)
    × (find (λ i. format_busid i == stick_busid) infos ≡ some found)
    × ((captured_stick.captured_registry_id ≡ none) × (left ≡ u.dev) × (calls ≡ [])
        ⊎ Left later u.dev stick_busid (found.vendor_id, found.product_id))
drop_opened-same_device_example =
    drop_opened-same_device root_usb stick_answers later stick_busid captured_stick reading
      stick_captured

-- The stick does not come back; the clock is past the deadline at the last round.
abbrev gone_usb : Usb
gone_usb = record quiet_usb { is_root = true; deadline_passed = λ tries. leb 100 tries }

wait_reappear_ends_example :
    wait_reappear gone_usb stick_info 107 1 ≡ wait_reappear gone_usb stick_info 100 1
wait_reappear_ends_example = wait_reappear_ends gone_usb stick_info 100 7 99 1 (omega arith) refl
