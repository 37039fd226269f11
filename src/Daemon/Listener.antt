-- ===== src/Daemon/Listener.antt =====
-- Listening and shutting down, of crates/usbipd/src/daemon.rs: `serve` and its two accept loops. What
-- runs in the sessions is the module Session; they share the `DaemonState`.
pub mod Order
pub mod Shutdown
use usbipd_darwin.Common.{
  ℕ, List, [], ◌∷◌, ◌++◌, Option, none, some, Bool, true, false, ◌&&◌, not, Result, ok, err, map,
  ◌≡◌, refl, ◌⊎◌, inl, inr, ◌==◌, text_eq, nat_eq, if◌then◌else◌,
}
use usbipd_darwin.Common.Map
use usbipd_darwin.Common.Files.{
  Files, FileCall, remove_file, bind_socket, set_permissions, owner_only,
}
use usbipd_darwin.Host.Release.{Present, ReleaseCall, release_capture}
use usbipd_darwin.Daemon.Policy.{AccessPolicy}
use usbipd_darwin.Daemon.Attach.{DaemonState}

-- An address, a v6 one as the number of 128 bits that it is.
pub data IpAddr : Type 0 where
  v4 : ℕ → ℕ → ℕ → ℕ → IpAddr
  v6 : ℕ → IpAddr

pub record SocketAddr : Type 0 where
  pub ip : IpAddr
  pub port : ℕ

pub data Endpoint : Type 0 where
  tcp : SocketAddr → Endpoint
  unix : List ℕ → Endpoint

pub record DaemonConfig : Type 0 where
  pub endpoint : Endpoint
  pub policy : AccessPolicy
  pub allow_public_bind : Bool

pub Endpoint-cases :
    (e : Endpoint) → ((addr : SocketAddr) × (e ≡ tcp addr)) ⊎ ((path : List ℕ) × (e ≡ unix path))
Endpoint-cases (tcp addr) = inl (addr, refl)
Endpoint-cases (unix path) = inr (path, refl)

-- 127.0.0.0/8 and ::1
unfoldable pub is_loopback : SocketAddr → Bool
is_loopback addr = elim addr.ip as (λ _. Bool) [ v4 a b c d ↦ a == 127 | v6 n ↦ n == 1 ]

pub data ServeError : Type 0 where
  public_bind : SocketAddr → ServeError
  not_a_socket bind_unix : List ℕ → ServeError
  bind_tcp : SocketAddr → ServeError

-- What accepting gives until a signal comes: a client with its label, or a failure.
pub data Incoming : Type 0 where
  accepted : List ℕ → Incoming
  accept_failed : Incoming

pub data Action : Type 0 where
  listen : SocketAddr → Action
  file : FileCall → Action
  spawn_session : List ℕ → Action
  release : List ℕ → List ReleaseCall → Action

-- What the system answers: its files, which TCP addresses can be bound, and for each busid what a
-- release finds at the shutdown.
pub record System : Type 0 where
  pub files : Files
  pub binds_tcp : SocketAddr → Bool
  pub at_shutdown : List ℕ → Present

unfoldable pub accept_loop : List Incoming → List Action
accept_loop [] = []
accept_loop (accepted peer ∷ later) = spawn_session peer ∷ accept_loop later
accept_loop (accept_failed ∷ later) = accept_loop later

unfoldable pub release_all : System → List (List ℕ) → List Action
release_all sys [] = []
release_all sys (busid ∷ busids) =
    release busid (release_capture (sys.at_shutdown busid) busid).1 ∷ release_all sys busids

module _ (sys : System) (incoming : List Incoming) (state : DaemonState) where
  shut_down : List Action
  unfolding release_all Map.keys
  shut_down = release_all sys (Map.keys state.attached)

  serve_tcp : SocketAddr → List Action × Result (Unit {0}) ServeError
  unfolding accept_loop shut_down
  serve_tcp addr =
      if sys.binds_tcp addr
      then (listen addr ∷ (accept_loop incoming ++ shut_down), ok tt)
      else ([], err (bind_tcp addr))

  -- Behind the look at the path, with the removal of a socket that was there.
  bind_and_serve : List ℕ → List Action → List Action × Result (Unit {0}) ServeError
  unfolding accept_loop shut_down
  bind_and_serve path removal =
      if sys.files.binds path
      then (
        removal
            ++ (file (bind_socket path)
                ∷ file (set_permissions path owner_only)
                ∷ (accept_loop incoming ++ (file (remove_file path) ∷ shut_down))),
        ok tt,
      )
      else (removal, err (bind_unix path))

  serve_unix : List ℕ → List Action × Result (Unit {0}) ServeError
  unfolding bind_and_serve
  serve_unix path =
      elim (sys.files.socket_at path) as (λ _. List Action × Result (Unit {0}) ServeError) [
        | none ↦ bind_and_serve path []
        | some is_socket ↦
            if not is_socket
            then ([], err (not_a_socket path))
            else bind_and_serve path (file (remove_file path) ∷ [])
      ]

  -- `incoming` is what comes before the signal; `state` is the state when it comes.
  unfoldable pub serve : DaemonConfig → List Action × Result (Unit {0}) ServeError
  unfolding serve_tcp serve_unix
  serve config = elim config.endpoint as (λ _. List Action × Result (Unit {0}) ServeError) [
    | tcp addr ↦
        if not (is_loopback addr) && not config.allow_public_bind
        then ([], err (public_bind addr))
        else serve_tcp addr
    | unix path ↦ serve_unix path
  ]
