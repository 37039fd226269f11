-- ===== src/Daemon/Urb/Writer.antt =====
-- The shared writer of a session of crates/usbipd/src/daemon.rs, byte by byte: the tasks of `run_submit`
-- and the loop's `handle_cmd_unlink` each take the lock and call `write_all`, which hands over as much
-- as the socket takes and waits for the rest.
pub mod Whole
pub mod Cut
use usbipd_darwin.Common.{
  ℕ, List, [], ◌∷◌, ◌++◌, Option, none, some, Bool, true, false, ◌≡◌, ◌≢◌, nat_eq,
}
use usbipd_darwin.Common.Map
use usbipd_darwin.Common.Map.{Map}
use usbipd_darwin.Host.Transfer.Calls.{Answers}
use usbipd_darwin.Daemon.Urb.Stream.{Submitted, Handled, submitted, IsHandled, handled_bytes}

-- A reply that waits for the lock; one of which the first bytes are written and the rest is not; one
-- that is written; one whose task was stopped, or whose write failed.
pub data Job : Type 0 where
  waiting written stopped : Handled → Job
  writing : Handled → List ℕ → List ℕ → Job

-- `sent` is what was written since the start of URB mode, `log` the replies that were written to their
-- ends.
pub record Wire : Type 0 where
  pub sent : List ℕ
  pub log : List Handled
  pub lock : Option ℕ
  pub broken : Bool
  pub jobs : Map ℕ Job

unfoldable pub new : Wire
new = record { sent = []; log = []; lock = none; broken = false; jobs = [] }

abbrev put : ℕ → Job → Wire → Wire
put id j w = record w { jobs = Map.insert id j w.jobs }

unfoldable pub arrive : ℕ → Handled → Wire → Wire
arrive id h w = put id (waiting h) w

-- `writer.lock().await`
unfoldable pub take_lock : ℕ → Handled → List ℕ → Wire → Wire
take_lock id h bytes w = put id (writing h [] bytes) (record w { lock = some id })

-- What the socket takes at once.
unfoldable pub push : ℕ → Handled → List ℕ → List ℕ → List ℕ → Wire → Wire
push id h front chunk rest w =
    put id (writing h (front ++ chunk) rest) (record w { sent = w.sent ++ chunk })

-- `write_all` returns, and the lock is dropped.
unfoldable pub release : ℕ → Handled → Wire → Wire
release id h w = put id (written h) (record w { lock = none; log = w.log ++ (h ∷ []) })

unfoldable pub fail : ℕ → Handled → Wire → Wire
fail id h w = put id (stopped h) (record w { lock = none; broken = true })

-- An abort while the task waits for the lock, and one while it waits inside `write_all`.
unfoldable pub give_up : ℕ → Handled → Wire → Wire
give_up id h w = put id (stopped h) w

unfoldable pub cut : ℕ → Handled → Wire → Wire
cut id h w = put id (stopped h) (record w { lock = none })

module _ (nusb : Answers) (into : ℕ → Bool) (cuts : Bool) where
  -- Only tasks are aborted, and the loop is not one. `cuts` says whether an abort may hit a write.
  pub data Step : Wire → Wire → Type 0 where
    arrives :
        (w : Wire) (id : ℕ) (h : Handled)
        → Map.get id w.jobs ≡ none
        → IsHandled into h
        → Step w (arrive id h w)
    locks :
        (w : Wire) (id : ℕ) (h : Handled)
        → Map.get id w.jobs ≡ some (waiting h)
        → w.lock ≡ none
        → Step w (take_lock id h (handled_bytes nusb h) w)
    pushes :
        (w : Wire) (id : ℕ) (h : Handled) (front chunk rest : List ℕ)
        → Map.get id w.jobs ≡ some (writing h front (chunk ++ rest))
        → w.broken ≡ false
        → Step w (push id h front chunk rest w)
    releases :
        (w : Wire) (id : ℕ) (h : Handled) (front : List ℕ)
        → Map.get id w.jobs ≡ some (writing h front [])
        → Step w (release id h w)
    fails :
        (w : Wire) (id : ℕ) (h : Handled) (front rest : List ℕ)
        → Map.get id w.jobs ≡ some (writing h front rest)
        → Step w (fail id h w)
    gives_up :
        (w : Wire) (id : ℕ) (s : Submitted)
        → Map.get id w.jobs ≡ some (waiting (submitted s))
        → Step w (give_up id (submitted s) w)
    is_cut :
        (w : Wire) (id : ℕ) (s : Submitted) (front rest : List ℕ)
        → cuts ≡ true
        → Map.get id w.jobs ≡ some (writing (submitted s) front rest)
        → Step w (cut id (submitted s) w)

  pub data Run (w : Wire) : Wire → Type 0 where
    here : Run w w
    then_step : {v u : Wire} → Run w v → Step v u → Run w u
