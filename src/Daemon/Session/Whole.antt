-- ===== src/Daemon/Session/Whole.antt =====
-- A session of crates/usbipd/src/daemon.rs from its first byte to its end: `handle_session`, and behind
-- an import the reading of `urb_loop` and the drop of the guard.
use usbipd_darwin.Common.{
  ℕ, suc, List, [], ◌++◌, Option, none, some, ◌≡◌, Result, drop, nat_eq, text_eq,
}
use usbipd_darwin.Common.Map
use usbipd_darwin.Host.Ids.{pack_devid}
use usbipd_darwin.Host.Devices.{UsbDevice}
use usbipd_darwin.Host.Open.{OpenedDevice}
use usbipd_darwin.Daemon.Wire.{to_exported}
use usbipd_darwin.Proto.Op.Device.{encode_rep_import_ok}
use usbipd_darwin.Daemon.Conn.{Conn}
use usbipd_darwin.Daemon.Attach.{DaemonState, drop_guard}
use usbipd_darwin.Daemon.Session.Flow.{SessionError, World, go, stop}
use usbipd_darwin.Daemon.Session.Handlers.{Host, handle_session}
use usbipd_darwin.Daemon.Urb.Requests.{Request}
use usbipd_darwin.Daemon.Urb.Reading.{LoopEnd, client_gone, failed, held_up, read_all}
use usbipd_darwin.Daemon.Urb.Reading.Outcome.{IsRead}

pub data Outcome : Type 0 where
  handshake : Result (Unit {0}) SessionError → Outcome
  urb_mode : UsbDevice → OpenedDevice → List Request → LoopEnd → Outcome

-- A loop that is held up keeps the guard.
abbrev behind_loop : LoopEnd → List ℕ → DaemonState → DaemonState
behind_loop client_gone busid state = drop_guard busid state
behind_loop (failed e) busid state = drop_guard busid state
behind_loop (held_up q) busid state = state

behind_import :
    UsbDevice
    → OpenedDevice
    → DaemonState
    → Option (List Request × LoopEnd × Conn)
    → Option (Outcome × DaemonState)
behind_import desc dev state none = none
behind_import desc dev state (some (rs, e, c)) =
    some (urb_mode desc dev rs e, behind_loop e desc.busid state)

-- `waits` is how many of the URB loop's waits come back, and `none` is a loop whose fuel is used up.
unfoldable pub run_session : Host → List ℕ → ℕ → ℕ → World → Option (Outcome × DaemonState)
unfolding behind_import
run_session host peer fuel waits w =
    let (r, v) = handle_session host peer w in
    elim r as (λ _. Option (Outcome × DaemonState)) [
      | stop x ↦ some (handshake x, v.state)
      | go (desc, dev) ↦
          behind_import desc dev v.state
            (read_all (pack_devid desc.busnum desc.devnum) fuel waits v.conn)
    ]

-- The connection behind the handshake of an import: its 40 bytes are read, and the reply is written.
pub record Entered (desc : UsbDevice) (w : World) (c : Conn) : Type 0 where
  pub input : c.input ≡ drop 40 w.conn.input
  pub ending : c.ending ≡ w.conn.ending
  pub sent : c.sent ≡ w.conn.sent ++ encode_rep_import_ok [] (to_exported desc)
  pub writes : w.conn.writes_left ≡ suc c.writes_left

-- What URB mode has done behind the handshake, for the device that was opened.
abbrev pub IsOutcome : ℕ → World → Outcome → Type 0
IsOutcome waits w (handshake r) = Unit
IsOutcome waits w (urb_mode desc dev rs e) =
    (pack_devid desc.busnum desc.devnum ≡ dev.devid)
    × ((c : Conn) × (d : Conn) × Entered desc w c × IsRead dev.devid waits c rs e d)

-- The claims behind a session: as before it, or with the device's while the loop is held up.
abbrev pub Restored : World → DaemonState → Type 0
Restored w state = (k : List ℕ) → Map.get k state.attached ≡ Map.get k w.state.attached

abbrev pub IsClaims : List ℕ → World → Outcome → DaemonState → Type 0
IsClaims peer w (handshake r) state = Restored w state
IsClaims peer w (urb_mode desc dev rs client_gone) state = Restored w state
IsClaims peer w (urb_mode desc dev rs (failed e)) state = Restored w state
IsClaims peer w (urb_mode desc dev rs (held_up q)) state =
    (k : List ℕ)
    → Map.get k state.attached ≡ Map.get k (Map.insert desc.busid peer w.state.attached)

abbrev Finished : Host → List ℕ → ℕ → ℕ → World → Type 0
Finished host peer fuel waits w =
    (o : Outcome) × (state : DaemonState) × (run_session host peer fuel waits w ≡ some (o, state))
    × IsClaims peer w o state
    × (state.policy ≡ w.state.policy)
    × IsOutcome waits w o
