-- ===== src/Events/Listener.antt =====
-- `bind_listener` of crates/usbipd/src/events.rs, beside what `serve` of daemon.rs does for its socket.
use usbipd_darwin.Common.{
  ℕ, List, [], ◌∷◌, ◌++◌, none, some, true, false, not, Result, ok, err, map, ◌≡◌, ◌⊎◌, inl, inr,
  arith, if◌then◌else◌, Option-cases, Bool-cases, text_eq,
}
use usbipd_darwin.Common.Map
use usbipd_darwin.Common.Files.{
  Files, FileCall, remove_file, bind_socket, set_permissions, owner_only,
}
use usbipd_darwin.Daemon.Attach.{DaemonState}
use usbipd_darwin.Daemon.Listener.{
  unix, DaemonConfig, ServeError, bind_unix, Incoming, Action, file, System, accept_loop,
  release_all, serve,
}
use usbipd_darwin.Daemon.Listener as Listener

pub data ListenError : Type 0 where
  not_a_socket cannot_bind : List ℕ → ListenError

bind_behind : Files → List ℕ → List FileCall → List FileCall × Result (Unit {0}) ListenError
bind_behind files path removal =
    if files.binds path
    then (removal ++ (bind_socket path ∷ set_permissions path owner_only ∷ []), ok tt)
    else (removal, err (cannot_bind path))

unfoldable pub bind_listener : Files → List ℕ → List FileCall × Result (Unit {0}) ListenError
unfolding bind_behind
bind_listener files path =
    elim (files.socket_at path) as (λ _. List FileCall × Result (Unit {0}) ListenError) [
      | none ↦ bind_behind files path []
      | some is_socket ↦
          if not is_socket
          then ([], err (not_a_socket path))
          else bind_behind files path (remove_file path ∷ [])
    ]

-- The two listeners treat a socket path alike: `serve` on a Unix socket starts with what `bind_listener`
-- does at the same path; where that fails `serve` fails and does nothing more, and where it succeeds
-- `serve` succeeds and at its end removes the socket before it gives the devices back.
pub bind_listener-serve :
    (sys : System) (incoming : List Incoming) (state : DaemonState) (config : DaemonConfig)
    (path : List ℕ)
    → config.endpoint ≡ unix path
    → let (calls, bound) = bind_listener sys.files path in
      let (actions, served) = serve sys incoming state config in
      ((bound ≡ ok tt)
        × (served ≡ ok tt)
        × (actions
            ≡ map file calls
              ++ (accept_loop incoming
                  ++ (file (remove_file path) ∷ release_all sys (Map.keys state.attached)))))
      ⊎ (e : ListenError) × (f : ServeError) × (bound ≡ err e)
        × (served ≡ err f)
        × (actions ≡ map file calls)
unfolding bind_listener serve
bind_listener-serve sys incoming state config path h =
    elim (Option-cases (sys.files.socket_at path)) [
      | inl there ↦ elim (Bool-cases (sys.files.binds path)) [
        | inl bound ↦ inl (
          ground (arith, h, there, bound),
          ground (arith, h, there, bound),
          ground (arith, h, there, bound),
        )
        | inr failed ↦ inr (
          cannot_bind path,
          bind_unix path,
          ground (arith, h, there, failed),
          ground (arith, h, there, failed),
          ground (arith, h, there, failed),
        )
      ]
      | inr (true, there) ↦ elim (Bool-cases (sys.files.binds path)) [
        | inl bound ↦ inl (
          ground (arith, h, there, bound),
          ground (arith, h, there, bound),
          ground (arith, h, there, bound),
        )
        | inr failed ↦ inr (
          cannot_bind path,
          bind_unix path,
          ground (arith, h, there, failed),
          ground (arith, h, there, failed),
          ground (arith, h, there, failed),
        )
      ]
      | inr (false, there) ↦ inr (
        not_a_socket path,
        Listener.not_a_socket path,
        ground (arith, h, there),
        ground (arith, h, there),
        ground (arith, h, there),
      )
    ]
