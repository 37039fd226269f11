-- ===== src/Host/Transfer/Control.antt =====
-- `control_transfer` of crates/host-mac/src/lib.rs.
use usbipd_darwin.Common.{ℕ, List, [], bit_and, if◌then◌else◌, nat_eq}
use usbipd_darwin.Common.Map
use usbipd_darwin.Common.Map.{Map}
use usbipd_darwin.Host.Setup.{
  SetupPacket, is_in, control_type, recipient, is_set_configuration, is_set_interface,
}
use usbipd_darwin.Host.Open.{OpenedDevice}
use usbipd_darwin.Host.Transfer.Calls.{
  ControlRequest, set_configuration, set_alt_setting, control_in, control_out, Answers, T, ◌>>◌,
  pure, modify, ask, receive,
}
use usbipd_darwin.Host.Transfer.Endpoints.{ensure_interface, invalidate_interface_endpoints}

unfoldable pub clear_caches : OpenedDevice → OpenedDevice
clear_caches dev = record dev { endpoints = []; interfaces = []; alt_settings = [] }

unfoldable pub request_of : SetupPacket → ControlRequest
request_of setup = record {
  control_type = control_type setup;
  recipient = recipient setup;
  request = setup.b_request;
  value = setup.w_value;
  index = setup.w_index;
}

module _ (nusb : Answers) where
  unfoldable pub configure : ℕ → T (List ℕ)
  unfolding clear_caches ask
  configure cfg = do modify clear_caches; ask nusb (set_configuration cfg); pure []

  unfoldable pub select_setting : ℕ → ℕ → T (List ℕ)
  unfolding invalidate_interface_endpoints ensure_interface ask
  select_setting iface_num alt = do
    invalidate_interface_endpoints iface_num
    ensure_interface nusb iface_num
    ask nusb (set_alt_setting iface_num alt)
    modify (λ dev. record dev { alt_settings = Map.insert iface_num alt dev.alt_settings })
    pure []

  send_out : SetupPacket → List ℕ → T (List ℕ)
  unfolding receive
  send_out setup out_data = do receive nusb (control_out (request_of setup) out_data); pure []

  unfoldable pub control_transfer : SetupPacket → List ℕ → T (List ℕ)
  unfolding configure select_setting send_out receive
  control_transfer setup out_data =
      if is_set_configuration setup
      then configure (bit_and setup.w_value 0xff)
      else if is_set_interface setup
      then select_setting (bit_and setup.w_index 0xff) (bit_and setup.w_value 0xff)
      else if is_in setup
      then receive nusb (control_in (request_of setup) setup.w_length)
      else send_out setup out_data
