-- ===== src/Common/Files.antt =====
-- Unix sockets in the file system, as crates/usbipd/src/daemon.rs and events.rs use them.
use mathlib.Core.Option.{Option}
use mathlib.Core.Bool.{Bool}
use mathlib.Core.List.{List}
use Prim.Native.Nat.{ℕ}

-- Whether there is a file at a path and whether it is a socket, and whether a socket can be bound.
pub record Files : Type 0 where
  pub socket_at : List ℕ → Option Bool
  pub binds : List ℕ → Bool

pub data FileCall : Type 0 where
  remove_file bind_socket : List ℕ → FileCall
  set_permissions : List ℕ → ℕ → FileCall

-- `0o600`
abbrev pub owner_only : ℕ
owner_only = 384
