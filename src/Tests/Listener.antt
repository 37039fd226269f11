-- ===== src/Tests/Listener.antt =====
-- Listening and shutting down, of crates/usbipd/src/daemon.rs and events.rs.
use mathlib.Core.List.{Memᴰ}
use usbipd_darwin.Common.{
  ℕ, List, [], ◌∷◌, ◌++◌, none, some, true, false, ok, err, ◌≡◌, ◌⊎◌, refl, map, text_eq, codes,
}
use usbipd_darwin.Common.Map
use usbipd_darwin.Common.Files.{remove_file}
use usbipd_darwin.Host.Devices.{from_info, from_nusb, format_busid, join_ports, u8_to_string}
use usbipd_darwin.Host.Release.{release_capture}
use usbipd_darwin.Daemon.Policy.{allow_list}
use usbipd_darwin.Daemon.Attach.{DaemonState}
use usbipd_darwin.Daemon.Listener.{
  v4, unix, DaemonConfig, is_loopback, ServeError, public_bind, Incoming, accepted, accept_failed,
  file, release, System, accept_loop, release_all, serve,
}
use usbipd_darwin.Daemon.Listener.Order.{closed, serving, phase_after, serve-permitted}
use usbipd_darwin.Daemon.Listener.Shutdown.{serve-released}
use usbipd_darwin.Events.Listener.{ListenError, bind_listener, bind_listener-serve}
use usbipd_darwin.Cli.Commands.{DaemonArgs, daemon_config, device_lines, pair_text, hex2}
use usbipd_darwin.Cli.Pairs.{hex4}
use usbipd_darwin.Tests.Samples.{stick_busid, listed_stick}
use usbipd_darwin.Tests.Capture.{later}

abbrev socket_path : List ℕ
socket_path = codes "/run/usbipd"

-- A socket of an earlier run is at the path.
abbrev left_over : System
left_over = record {
  files = record { socket_at = λ _. some true; binds = λ _. true };
  binds_tcp = λ _. true;
  at_shutdown = λ _. later;
}

abbrev on_socket : DaemonConfig
on_socket = record {
  endpoint = unix socket_path;
  policy = allow_list ((0x0781, 0x5530) ∷ []);
  allow_public_bind = false;
}

abbrev client : List ℕ
client = codes "unix:uid=501,pid=7"

abbrev clients : List Incoming
clients = accepted client ∷ accept_failed ∷ []

abbrev holding : DaemonState
holding = record { policy = on_socket.policy; attached = (stick_busid, client) ∷ [] }

serve-permitted_example :
    let (actions, r) = serve left_over clients holding on_socket in
    (r ≡ ok tt) × (phase_after left_over on_socket actions closed ≡ some serving)
    ⊎ (e : ServeError) × (r ≡ err e)
      × (phase_after left_over on_socket actions closed ≡ some closed)
serve-permitted_example = serve-permitted left_over clients holding on_socket

serves : (serve left_over clients holding on_socket).1 ≡ ok tt
unfolding serve
serves = refl

holds_stick : Map.get stick_busid holding.attached ≡ some client
unfolding Map.get
holds_stick = refl

serve-released_example :
    Memᴰ
      (release stick_busid (release_capture later stick_busid).1)
      (serve left_over clients holding on_socket).0
serve-released_example =
    serve-released left_over clients holding on_socket stick_busid client serves holds_stick

bind_listener-serve_example :
    let (calls, bound) = bind_listener left_over.files socket_path in
    let (actions, served) = serve left_over clients holding on_socket in
    ((bound ≡ ok tt)
      × (served ≡ ok tt)
      × (actions
          ≡ map file calls
            ++ (accept_loop clients
                ++ (file (remove_file socket_path)
                    ∷ release_all left_over (Map.keys holding.attached)))))
    ⊎ (e : ListenError) × (f : ServeError) × (bound ≡ err e)
      × (served ≡ err f)
      × (actions ≡ map file calls)
bind_listener-serve_example =
    bind_listener-serve left_over clients holding on_socket socket_path refl

-- `--listen 0.0.0.0:3240` without `--allow-public`
abbrev public_args : DaemonArgs
public_args = record {
  listen = record { ip = v4 0 0 0 0; port = 3240 };
  socket = none;
  allow = [];
  allow_all = true;
  allow_public = false;
}

public_refused :
    serve left_over clients holding (daemon_config public_args)
    ≡ ([], err (public_bind public_args.listen))
unfolding serve is_loopback daemon_config
public_refused = refl

last_line :
    device_lines listed_stick
    ≡ codes " - busid 01-1 (0781:5530)"
      ∷ codes "     (unknown vendor) : (unknown product)"
      ∷ codes "     class=00/00/00"
      ∷ codes "     allow with: --allow 0781:5530"
      ∷ []
unfolding device_lines pair_text hex2 hex4 from_info from_nusb format_busid join_ports u8_to_string
last_line = refl
