-- ===== src/Host/Transfer/Calls.antt =====
-- What crates/host-mac/src/lib.rs asks of nusb during transfers, and functions that ask and may fail.
use usbipd_darwin.Common.{ℕ, List, ◌∷◌, Option, Result, ok, err}
use usbipd_darwin.Host.Nusb.{NusbError}
use usbipd_darwin.Host.Setup.{ControlType, Recipient}
use usbipd_darwin.Host.Open.{EpKind, HostError, OpenedDevice}
use usbipd_darwin.Host.Open as Open

-- `nusb::descriptors::TransferType`
pub data TransferType : Type 0 where
  control isochronous bulk_pipe interrupt_pipe : TransferType

pub record EndpointDescriptor : Type 0 where
  pub address : ℕ
  pub transfer_type : TransferType

pub record InterfaceDescriptor : Type 0 where
  pub interface_number : ℕ
  pub alternate_setting : ℕ
  pub endpoints : List EndpointDescriptor

-- `ControlIn` with its length, `ControlOut` with its payload.
pub record ControlRequest : Type 0 where
  pub control_type : ControlType
  pub recipient : Recipient
  pub request : ℕ
  pub value : ℕ
  pub index : ℕ

pub data Call : Type 0 where
  set_configuration claim_interface clear_halt cancel_all : ℕ → Call
  set_alt_setting : ℕ → ℕ → Call
  open_endpoint : ℕ → ℕ → EpKind → Call
  control_in : ControlRequest → ℕ → Call
  control_out : ControlRequest → List ℕ → Call
  -- an IN transfer into a buffer of the size, an OUT transfer of the bytes
  transfer_in : ℕ → ℕ → Call
  transfer_out : ℕ → List ℕ → Call

-- `Completion`: the count of bytes, and the buffer or the error.
pub record Completion : Type 0 where
  pub actual_len : ℕ
  pub result : Result (List ℕ) ℕ

-- What nusb answers behind the calls so far. `hash_order` is the order in which a `HashMap` with the
-- given keys is walked.
pub record Answers : Type 0 where
  pub active_configuration : List Call → Option (List InterfaceDescriptor)
  pub done : List Call → Call → Result (Unit {0}) NusbError
  pub received : List Call → Call → Result (List ℕ) ℕ
  pub completed : List Call → Call → Completion
  pub max_packet_size : ℕ → ℕ
  pub hash_order : List ℕ → List ℕ

-- A device in use: its handle and caches, and the calls so far, the last one first.
pub record Use : Type 0 where
  pub dev : OpenedDevice
  pub calls : List Call

abbrev pub T : Type 0 → Type 0
T A = Use → Result A HostError × Use

abbrev pub go_on : {A B : Type 0} → Result A HostError → (A → T B) → T B
go_on (ok a) f u = f a u
go_on (err e) f u = (err e, u)

infixl 5 ◌>>=◌ ◌>>◌
abbrev pub ◌>>=◌ : {A B : Type 0} → T A → (A → T B) → T B
◌>>=◌ m f u = let (r, v) = m u in go_on r f v

abbrev pub ◌>>◌ : {A B : Type 0} → T A → T B → T B
m >> k = m >>= λ _. k

abbrev pub pure : {A : Type 0} → A → T A
pure a u = (ok a, u)

abbrev pub fail : {A : Type 0} → HostError → T A
fail e u = (err e, u)

abbrev pub modify : (OpenedDevice → OpenedDevice) → T (Unit {0})
modify f u = (ok tt, record u { dev = f u.dev })

abbrev from_nusb : Result (Unit {0}) NusbError → Result (Unit {0}) HostError
from_nusb (ok _) = ok tt
from_nusb (err e) = err (Open.nusb e)

abbrev pub from_transfer : {A : Type 0} → Result A ℕ → Result A HostError
from_transfer (ok a) = ok a
from_transfer (err e) = err (Open.transfer e)

module _ (nusb : Answers) where
  -- A call with `?`, and one whose failure is only logged.
  unfoldable pub ask : Call → T (Unit {0})
  ask c u = (from_nusb (nusb.done u.calls c), record u { calls = c ∷ u.calls })

  unfoldable pub try_ask : Call → T (Unit {0})
  try_ask c u = (ok tt, record u { calls = c ∷ u.calls })

  unfoldable pub receive : Call → T (List ℕ)
  receive c u = (from_transfer (nusb.received u.calls c), record u { calls = c ∷ u.calls })

  unfoldable pub complete : Call → T Completion
  complete c u = (ok (nusb.completed u.calls c), record u { calls = c ∷ u.calls })
