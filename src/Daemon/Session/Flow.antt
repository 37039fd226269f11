-- ===== src/Daemon/Session/Flow.antt =====
-- Handlers of a session: steps over the connection and the daemon's state that may return early.
use usbipd_darwin.Common.{ℕ, List, Result, ok, err, ◌≡◌, refl, ◌⊎◌, inl, inr}
use usbipd_darwin.Proto.Error.{ProtoError}
use usbipd_darwin.Host.Nusb.{NusbError}
use usbipd_darwin.Daemon.Conn
use usbipd_darwin.Daemon.Conn.{Conn, ReadError, WriteError}
use usbipd_darwin.Daemon.Attach.{DaemonState, drop_guard}

-- What `anyhow` reports, by the context that it names.
pub data SessionError : Type 0 where
  read_op_header read_import_busid : ReadError → SessionError
  decode_op_header decode_busid : ProtoError → SessionError
  enumerate_devices : NusbError → SessionError
  write_devlist write_import_reply : WriteError → SessionError

pub record World : Type 0 where
  pub conn : Conn
  pub state : DaemonState

pub data Flow (A : Type 0) : Type 0 where
  go : A → Flow A
  stop : Result (Unit {0}) SessionError → Flow A

abbrev pub M : Type 0 → Type 0
M A = World → Flow A × World

abbrev pub continue : {A B : Type 0} → Flow A → (A → M B) → M B
continue (go a) f w = f a w
continue (stop r) f w = (stop r, w)

infixl 5 ◌>>=◌ ◌>>◌
abbrev pub ◌>>=◌ : {A B : Type 0} → M A → (A → M B) → M B
◌>>=◌ m f w = let (r, v) = m w in continue r f v

abbrev pub ◌>>◌ : {A B : Type 0} → M A → M B → M B
m >> k = m >>= λ _. k

abbrev pub pure : {A : Type 0} → A → M A
pure a w = (go a, w)

-- `return Ok(())`, `return Err(e)`
abbrev pub finish : {A : Type 0} → Result (Unit {0}) SessionError → M A
finish r w = (stop r, w)

-- `?` on a result, with the context of its error
abbrev pub lift : {A E : Type 0} → (E → SessionError) → Result A E → M A
lift context (ok a) w = (go a, w)
lift context (err e) w = (stop (err (context e)), w)

unfoldable pub read_exact : ℕ → (ReadError → SessionError) → M (List ℕ)
unfolding Conn.read_exact
read_exact n context w =
    let (r, c) = Conn.read_exact n w.conn in lift context r (record w { conn = c })

unfoldable pub write_all : List ℕ → (WriteError → SessionError) → M (Unit {0})
unfolding Conn.write_all
write_all bytes context w =
    let (r, c) = Conn.write_all bytes w.conn in lift context r (record w { conn = c })

-- `write_all(..).await.ok()`
unfoldable pub try_write : List ℕ → M (Unit {0})
unfolding Conn.write_all
try_write bytes w = (go tt, record w { conn = (Conn.write_all bytes w.conn).1 })

-- What holds an `AttachGuard`: a return drops it.
abbrev pub release_on : {A : Type 0} → List ℕ → Flow A × World → Flow A × World
release_on busid (go a, w) = (go a, w)
release_on busid (stop r, w) = (stop r, record w { state = drop_guard busid w.state })

abbrev pub guarded : {A : Type 0} → List ℕ → M A → M A
guarded busid m w = release_on busid (m w)

-- How a handler came out.
pub Flow-cases :
    {A : Type 0} (p : Flow A × World)
    → ((a : A) × (v : World) × (p ≡ (go a, v)))
      ⊎ ((r : Result (Unit {0}) SessionError) × (v : World) × (p ≡ (stop r, v)))
Flow-cases (go a, v) = inl (a, v, refl)
Flow-cases (stop r, v) = inr (r, v, refl)
