-- ===== src/Host/Open/Wait.antt =====
-- The wait of crates/host-mac/src/lib.rs for a captured device to come back.
use usbipd_darwin.Common.{ℕ, zero, suc, ◌+◌, ◌<◌, ◌≡◌, ap, ◌∙◌, arith, true}
use usbipd_darwin.Host.Nusb.{DeviceInfo}
use usbipd_darwin.Host.Open.{Usb, wait_reappear}

-- The wait ends: when the clock is past the deadline at one of the rounds allowed, any number of further
-- rounds changes nothing.
pub wait_reappear_ends :
    (usb : Usb) (info : DeviceInfo) (rounds more k tries : ℕ)
    → k < rounds
    → usb.deadline_passed (tries + k) ≡ true
    → wait_reappear usb info (rounds + more) tries ≡ wait_reappear usb info rounds tries
unfolding wait_reappear
wait_reappear_ends usb info zero more k tries h late = absurd (omega arith)
wait_reappear_ends usb info (suc rounds) more zero tries h late =
    let now : usb.deadline_passed tries ≡ true = ap usb.deadline_passed (omega arith) ∙ late in
    let shape : suc rounds + more ≡ suc (rounds + more) = omega arith in
    rw shape (ground (arith, now))
wait_reappear_ends usb info (suc rounds) more (suc k) tries h late =
    let rest =
      wait_reappear_ends usb info rounds more k (tries + 1) (omega arith)
        (ap usb.deadline_passed (omega arith) ∙ late) in
    let shape : suc rounds + more ≡ suc (rounds + more) = omega arith in
    rw shape (ground (arith, rest))
