-- ===== src/Daemon/Attach.antt =====
-- The devices that clients hold, of crates/usbipd/src/daemon.rs: `DaemonState`, `try_attach` and the
-- drop of `AttachGuard`. Each runs under the mutex, so it is one step.
pub mod Exclusion
use usbipd_darwin.Common.{ℕ, List, [], ◌∷◌, Option, none, some, text_eq}
use usbipd_darwin.Common.Map
use usbipd_darwin.Common.Map.{Map}
use usbipd_darwin.Daemon.Policy.{AccessPolicy}

-- `attached` maps a busid to the label of the client that holds it.
pub record DaemonState : Type 0 where
  pub policy : AccessPolicy
  pub attached : Map (List ℕ) (List ℕ)

unfoldable pub new : AccessPolicy → DaemonState
new policy = record { policy = policy; attached = [] }

-- The new state stands for the guard: whoever has it owes a `drop_guard`.
unfoldable pub try_attach : List ℕ → List ℕ → DaemonState → Option DaemonState
try_attach busid peer state = elim (Map.get busid state.attached) as (λ _. Option DaemonState) [
  | some holder ↦ none
  | none ↦ some (record state { attached = Map.insert busid peer state.attached })
]

unfoldable pub drop_guard : List ℕ → DaemonState → DaemonState
drop_guard busid state = record state { attached = Map.remove busid state.attached }
