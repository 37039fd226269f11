-- ===== src/Cli/Commands.antt =====
-- The commands of crates/usbipd/src/main.rs: what `daemon` runs with, and what `list` prints. The texts of
-- a device are their bytes here, and the rest is ASCII.
use usbipd_darwin.Common.{
  ℕ, ◌/◌, ◌%◌, List, [], ◌∷◌, ◌++◌, Option, none, some, Bool, unwrap_or, map, codes,
}
use usbipd_darwin.Host.Devices.{UsbDevice}
use usbipd_darwin.Daemon.Policy.{choose_policy}
use usbipd_darwin.Daemon.Listener.{SocketAddr, Endpoint, tcp, unix, DaemonConfig}
use usbipd_darwin.Cli.Pairs.{hex4, lower_hex}

-- `Cmd::Daemon` as clap fills it in.
pub record DaemonArgs : Type 0 where
  pub listen : SocketAddr
  pub socket : Option (List ℕ)
  pub allow : List (ℕ × ℕ)
  pub allow_all : Bool
  pub allow_public : Bool

unfoldable pub daemon_config : DaemonArgs → DaemonConfig
unfolding choose_policy
daemon_config args = record {
  endpoint = elim args.socket as (λ _. Endpoint) [ some path ↦ unix path | none ↦ tcp args.listen ];
  policy = choose_policy args.allow_all args.allow;
  allow_public_bind = args.allow_public;
}

-- `{:02x}` of a `u8`
unfoldable pub hex2 : ℕ → List ℕ
hex2 n = lower_hex (n / 16) ∷ lower_hex (n % 16) ∷ []

-- `{:04x}:{:04x}`
unfoldable pub pair_text : UsbDevice → List ℕ
pair_text d = hex4 d.vendor_id ++ (58 ∷ hex4 d.product_id)

-- The lines of a device.
unfoldable pub device_lines : UsbDevice → List (List ℕ)
unfolding hex2 pair_text
device_lines d =
    (codes " - busid " ++ (d.busid ++ (codes " (" ++ (pair_text d ++ codes ")"))))
    ∷ (codes "     "
        ++ (unwrap_or d.manufacturer (codes "(unknown vendor)")
            ++ (codes " : " ++ unwrap_or d.product (codes "(unknown product)"))))
    ∷ (codes "     class=" ++ (hex2 d.class ++ (47 ∷ (hex2 d.subclass ++ (47 ∷ hex2 d.protocol)))))
    ∷ (codes "     allow with: --allow " ++ pair_text d)
    ∷ []

device_rows : List UsbDevice → List (List ℕ)
unfolding device_lines
device_rows [] = []
device_rows (d ∷ ds) = device_lines d ++ device_rows ds

-- The lines that `list` prints without `--json`.
unfoldable pub list_lines : List UsbDevice → List (List ℕ)
unfolding device_rows
list_lines [] = codes "Local USB devices" ∷ codes "=================" ∷ codes " (none)" ∷ []
list_lines (d ∷ ds) = codes "Local USB devices" ∷ codes "=================" ∷ device_rows (d ∷ ds)

-- A row of `list --json`; its text is serde_json's.
pub record JsonDevice : Type 0 where
  pub busid : List ℕ
  pub vendor_id : List ℕ
  pub product_id : List ℕ
  pub manufacturer : Option (List ℕ)
  pub product : Option (List ℕ)
  pub class : ℕ
  pub subclass : ℕ
  pub protocol : ℕ
  pub speed : ℕ

unfoldable pub json_device : UsbDevice → JsonDevice
json_device d = record {
  busid = d.busid;
  vendor_id = hex4 d.vendor_id;
  product_id = hex4 d.product_id;
  manufacturer = d.manufacturer;
  product = d.product;
  class = d.class;
  subclass = d.subclass;
  protocol = d.protocol;
  speed = d.speed;
}

unfoldable pub json_rows : List UsbDevice → List JsonDevice
json_rows devices = map json_device devices
