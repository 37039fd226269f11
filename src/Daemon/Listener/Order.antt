-- ===== src/Daemon/Listener/Order.antt =====
-- The order of what `serve` of crates/usbipd/src/daemon.rs does.
use usbipd_darwin.Common.{
  ℕ, List, [], ◌∷◌, ◌++◌, Option, none, some, Bool, true, false, ◌&&◌, ◌||◌, not, ok, err, ◌≡◌, ◌⊎◌,
  inl, inr, refl, arith, ◌==◌, nat_eq, text_eq, if◌then◌else◌, Option-cases, Bool-cases,
}
use usbipd_darwin.Common.Files.{remove_file, bind_socket, set_permissions, owner_only}
use usbipd_darwin.Common.Map
use usbipd_darwin.Daemon.Attach.{DaemonState}
use usbipd_darwin.Daemon.Listener.{
  Endpoint-cases, tcp, unix, DaemonConfig, is_loopback, Incoming, accepted, accept_failed,
  ServeError, public_bind, not_a_socket, bind_unix, bind_tcp, Action, listen, file, spawn_session,
  release, System, accept_loop, release_all, serve,
}

-- Nothing is bound; a socket with the permissions of the umask is; clients may be served, and at the
-- end the devices are released.
pub data Phase : Type 0 where
  closed exposed serving : Phase

when : Bool → Phase → Option Phase
when b p = if b then some p else none

-- What may be done in a phase. A file is removed only when it is a socket, or when it is the one that was
-- bound; a TCP address is bound only when it is a loopback address or the configuration allows others; a
-- session starts only behind a bind, and on a Unix socket only behind the call that makes it the owner's,
-- whose failure is only logged.
unfoldable pub permitted : System → DaemonConfig → Action → Phase → Option Phase
unfolding when
permitted sys config (listen addr) closed =
    when (is_loopback addr || config.allow_public_bind) serving
permitted sys config (file (remove_file path)) closed =
    elim (sys.files.socket_at path) as (λ _. Option Phase) [ none ↦ none | some b ↦ when b closed ]
permitted sys config (file (bind_socket path)) closed = some exposed
permitted sys config (file (set_permissions path mode)) exposed = when (mode == owner_only) serving
permitted sys config (file (remove_file path)) serving =
    elim config.endpoint as (λ _. Option Phase) [
      | tcp addr ↦ none
      | unix own ↦ when (path == own) serving
    ]
permitted sys config (spawn_session peer) serving = some serving
permitted sys config (release busid calls) serving = some serving
permitted sys config action phase = none

unfoldable pub phase_after : System → DaemonConfig → List Action → Phase → Option Phase
phase_after sys config [] phase = some phase
phase_after sys config (a ∷ later) phase =
    elim (permitted sys config a phase) as (λ _. Option Phase) [
      | none ↦ none
      | some next ↦ phase_after sys config later next
    ]

module _ (sys : System) (config : DaemonConfig) where
  phase_after-accept_loop :
      (incoming : List Incoming) (later : List Action)
      → phase_after sys config (accept_loop incoming ++ later) serving
        ≡ phase_after sys config later serving
  unfolding accept_loop phase_after permitted
  phase_after-accept_loop [] later = refl
  phase_after-accept_loop (accepted peer ∷ more) later = phase_after-accept_loop more later
  phase_after-accept_loop (accept_failed ∷ more) later = phase_after-accept_loop more later

  phase_after-release_all :
      (busids : List (List ℕ))
      → phase_after sys config (release_all sys busids) serving ≡ some serving
  unfolding release_all phase_after permitted
  phase_after-release_all [] = refl
  phase_after-release_all (b ∷ bs) = phase_after-release_all bs

-- Whatever the system answers, whoever connects and whatever is attached at the end, each thing that
-- `serve` does is permitted when it is done: the address that it binds, the file that it removes, and
-- each session behind the bind and the permissions. It ends well when it has served, and with an error
-- when it has bound nothing.
pub serve-permitted :
    (sys : System) (incoming : List Incoming) (state : DaemonState) (config : DaemonConfig)
    → let (actions, r) = serve sys incoming state config in
      (r ≡ ok tt) × (phase_after sys config actions closed ≡ some serving)
      ⊎ (e : ServeError) × (r ≡ err e) × (phase_after sys config actions closed ≡ some closed)
unfolding serve phase_after permitted
serve-permitted sys incoming state config =
    let busids : List (List ℕ) = Map.keys state.attached in
    let ends = phase_after-release_all sys config busids in
    elim (Endpoint-cases config.endpoint) [
      | inl (addr, over_tcp) ↦
          let accepts = phase_after-accept_loop sys config incoming (release_all sys busids) in
          elim (Bool-cases (not (is_loopback addr) && not config.allow_public_bind)) [
            | inl public ↦ inr (
              public_bind addr,
              ground (arith, over_tcp, public),
              ground (arith, over_tcp, public),
            )
            | inr private ↦ elim (Bool-cases (sys.binds_tcp addr)) [
              | inr failed ↦ inr (
                bind_tcp addr,
                ground (arith, over_tcp, private, failed),
                ground (arith, over_tcp, private, failed),
              )
              | inl bound ↦ inl (
                ground (arith, over_tcp, private, bound),
                ground (arith, over_tcp, private, bound, accepts, ends),
              )
            ]
          ]
      | inr (path, over_unix) ↦
          let own = Map.beq_refl path in
          let accepts =
            phase_after-accept_loop sys config incoming
              (file (remove_file path) ∷ release_all sys busids) in
          elim (Option-cases (sys.files.socket_at path)) [
            | inl there ↦ elim (Bool-cases (sys.files.binds path)) [
              | inr failed ↦ inr (
                bind_unix path,
                ground (arith, over_unix, there, failed),
                ground (arith, over_unix, there, failed),
              )
              | inl bound ↦ inl (
                ground (arith, over_unix, there, bound),
                ground (arith, over_unix, there, bound, ends, own, accepts),
              )
            ]
            | inr (true, there) ↦ elim (Bool-cases (sys.files.binds path)) [
              | inr failed ↦ inr (
                bind_unix path,
                ground (arith, over_unix, there, failed),
                ground (arith, over_unix, there, failed),
              )
              | inl bound ↦ inl (
                ground (arith, over_unix, there, bound),
                ground (arith, over_unix, there, bound, ends, own, accepts),
              )
            ]
            | inr (false, there) ↦ inr (
              not_a_socket path,
              ground (arith, over_unix, there),
              ground (arith, over_unix, there),
            )
          ]
    ]
