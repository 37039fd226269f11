-- ===== src/Daemon/Listener/Shutdown.antt =====
-- What `serve` of crates/usbipd/src/daemon.rs gives back when it ends.
use mathlib.Core.List.{Memᴰ}
use mathlib.Core.List.Memᴰ
use usbipd_darwin.Common.{
  ℕ, List, [], ◌∷◌, ◌++◌, some, ok, ◌≡◌, inl, inr, ap, sym, subst, arith, ◌==◌, text_eq,
  text_beq_iff, nat_eq, Bool-cases, Option-cases,
}
use usbipd_darwin.Common.Map
use usbipd_darwin.Common.Map.{Map}
use usbipd_darwin.Common.Files.{remove_file, bind_socket, set_permissions, owner_only}
use usbipd_darwin.Host.Release.{release_capture}
use usbipd_darwin.Daemon.Attach.{DaemonState}
use usbipd_darwin.Daemon.Listener.{
  Endpoint-cases, DaemonConfig, Incoming, Action, listen, file, release, System, accept_loop,
  release_all, serve,
}

key_of :
    (m : Map (List ℕ) (List ℕ)) (k peer : List ℕ) → Map.get k m ≡ some peer → Memᴰ k (Map.keys m)
unfolding Map.get Map.keys
key_of [] k peer h = absurd (ground arith)
key_of ((j, v) ∷ m) k peer h = elim (Bool-cases (j == k)) [
  | inl same ↦ Memᴰ.head (sym ((text_beq_iff j k).0 same))
  | inr other ↦ Memᴰ.tail (key_of m k peer (ground (arith, h, other)))
]

module _ (sys : System) where
  abbrev released : List ℕ → Action
  released busid = release busid (release_capture (sys.at_shutdown busid) busid).1

  release_of :
      (busids : List (List ℕ)) (busid : List ℕ)
      → Memᴰ busid busids
      → Memᴰ (released busid) (release_all sys busids)
  unfolding release_all
  release_of [] busid h = elim h [ ]
  release_of (b ∷ bs) busid (Memᴰ.head same) = Memᴰ.head (ap released same)
  release_of (b ∷ bs) busid (Memᴰ.tail later) = Memᴰ.tail (release_of bs busid later)

  -- A listener that was bound calls `release_capture`, when it ends, for every device that is still
  -- attached, with the calls that this makes on what it finds then.
  pub serve-released :
      (incoming : List Incoming) (state : DaemonState) (config : DaemonConfig) (busid peer : List ℕ)
      → (serve sys incoming state config).1 ≡ ok tt
      → Map.get busid state.attached ≡ some peer
      → Memᴰ (released busid) (serve sys incoming state config).0
  unfolding serve
  serve-released incoming state config busid peer fine attached =
      let busids : List (List ℕ) = Map.keys state.attached in
      let last : List Action = release_all sys busids in
      let held = release_of busids busid (key_of state.attached busid peer attached) in
      let Given : List Action → Type 0 = Memᴰ (released busid) in
      elim (Endpoint-cases config.endpoint) [
        | inl (addr, over_tcp) ↦
            let all : List Action = listen addr ∷ (accept_loop incoming ++ last) in
            let same : all ≡ (serve sys incoming state config).0 = ground (arith, fine, over_tcp) in
            subst Given same (Memᴰ.tail (Memᴰ.append_right (accept_loop incoming) held))
        | inr (path, over_unix) ↦
            let rest : List Action =
              file (bind_socket path)
              ∷ file (set_permissions path owner_only)
              ∷ (accept_loop incoming ++ (file (remove_file path) ∷ last)) in
            let given : Given rest =
              Memᴰ.tail (Memᴰ.tail (Memᴰ.append_right (accept_loop incoming) (Memᴰ.tail held))) in
            elim (Option-cases (sys.files.socket_at path)) [
              | inl none_there ↦
                  let same : rest ≡ (serve sys incoming state config).0 =
                    ground (arith, fine, over_unix, none_there) in
                  subst Given same given
              | inr (is_socket, there) ↦ elim (Bool-cases is_socket) [
                | inr no_socket ↦ absurd (ground (arith, fine, over_unix, there, no_socket))
                | inl a_socket ↦
                    let same : file (remove_file path) ∷ rest
                        ≡ (serve sys incoming state config).0 =
                      ground (arith, fine, over_unix, there, a_socket) in
                    subst Given same (Memᴰ.tail given)
              ]
            ]
      ]
