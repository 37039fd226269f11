-- ===== src/Host/Transfer/Origin.antt =====
-- What transfers leave alone of an opened device of crates/host-mac/src/lib.rs.
use usbipd_darwin.Common.{
  ℕ, List, [], ◌∷◌, Option, ◌≡◌, inl, inr, refl, ◌∙◌, arith, bit_and, Result-cases,
}
use usbipd_darwin.Host.Setup.{SetupPacket}
use usbipd_darwin.Host.Open.{EpKind, OpenedDevice}
use usbipd_darwin.Host.Transfer.Calls.{Answers, Use, ask, receive, complete}
use usbipd_darwin.Host.Transfer.Endpoints.{
  endpoint_kind, ensure_interface, ensure_endpoint, cancel_endpoint, invalidate_interface_endpoints,
}
use usbipd_darwin.Host.Transfer.Control.{select_setting, control_transfer}
use usbipd_darwin.Host.Transfer.Transmit.{data_transfer}
use usbipd_darwin.Host.Transfer.Sequence.{
  Operation, control, on_endpoint, cancel, operate, operate_all,
}

-- The busid of a device, and what was noted when it was captured.
pub record Origin : Type 0 where
  pub busid : List ℕ
  pub captured : Option ℕ
  pub vid_pid : Option (ℕ × ℕ)

abbrev pub origin : OpenedDevice → Origin
origin dev = record {
  busid = dev.busid;
  captured = dev.captured_registry_id;
  vid_pid = dev.captured_vid_pid;
}

module _ (nusb : Answers) where
  interface-origin : (num : ℕ) (u : Use) → origin (ensure_interface nusb num u).1.dev ≡ origin u.dev
  unfolding ensure_interface ask
  interface-origin num u = ground arith

  endpoint-origin :
      (ep_addr : ℕ) (k : ℕ × EpKind) (u : Use)
      → origin (ensure_endpoint nusb ep_addr k u).1.dev ≡ origin u.dev
  unfolding ensure_endpoint ask
  endpoint-origin ep_addr (iface_num, kind) u = ground (arith, interface-origin iface_num u)

  select-origin :
      (iface_num alt : ℕ) (u : Use)
      → origin (select_setting nusb iface_num alt u).1.dev ≡ origin u.dev
  unfolding select_setting invalidate_interface_endpoints ask
  select-origin iface_num alt u =
      ground (arith, interface-origin iface_num (invalidate_interface_endpoints iface_num u).1)

  control-origin :
      (setup : SetupPacket) (out_data : List ℕ) (u : Use)
      → origin (control_transfer nusb setup out_data u).1.dev ≡ origin u.dev
  unfolding control_transfer receive ask
  control-origin setup out_data u =
      ground (arith, select-origin (bit_and setup.w_index 0xff) (bit_and setup.w_value 0xff) u)

  data-origin :
      (ep_addr size : ℕ) (out_data : List ℕ) (u : Use)
      → origin (data_transfer nusb ep_addr size out_data u).1.dev ≡ origin u.dev
  unfolding data_transfer endpoint_kind complete
  data-origin ep_addr size out_data u = elim (Result-cases (endpoint_kind nusb ep_addr u).0) [
    | inr (e, failed) ↦ ground arith
    | inl (kind, found) ↦
        ground (arith, endpoint-origin ep_addr kind (endpoint_kind nusb ep_addr u).1)
  ]

  operate-origin : (o : Operation) (u : Use) → origin (operate nusb o u).dev ≡ origin u.dev
  unfolding operate cancel_endpoint
  operate-origin (control setup out_data) u = control-origin setup out_data u
  operate-origin (on_endpoint ep_addr size out_data) u = data-origin ep_addr size out_data u
  operate-origin (cancel ep_addr) u = ground arith

  pub operate_all-origin :
      (os : List Operation) (u : Use) → origin (operate_all nusb os u).dev ≡ origin u.dev
  unfolding operate_all
  operate_all-origin [] u = refl
  operate_all-origin (o ∷ os) u = operate_all-origin os (operate nusb o u) ∙ operate-origin o u
