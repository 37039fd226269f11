-- ===== src/Events/Hub.antt =====
-- The hub of crates/usbipd/src/events.rs with its publisher, the accept loop and the subscribers, and
-- the interleavings of their steps. A step runs under one lock, or up to the next `await`. What
-- a broadcast channel promises is taken from its documentation: an event is put into the queue of
-- every receiver there is, in the order of the sends, and a receiver that lags loses its oldest ones.
use usbipd_darwin.Common.{
  ℕ, ◌+◌, List, [], ◌∷◌, ◌++◌, Option, none, some, Bool, true, false, ◌≡◌, ◌≢◌, ◌↔◌, nat_eq,
  text_eq, map,
}
use mathlib.Core.List.{Memᴰ}
use usbipd_darwin.Common.Map
use usbipd_darwin.Common.Map.{Map}
use usbipd_darwin.Events.Lines.{AddedDevice, EventLine, added}
use usbipd_darwin.Events.Publisher as Publisher
use usbipd_darwin.Events.Publisher.{Publisher, Hotplug, publish}

-- The task of `serve_subscriber`, and before it the accept loop between the subscription and the
-- spawn of the task.
pub data Stage : Type 0 where
  subscribed serving closed : Stage

-- `initial` and `queue` are what is still to be written of the snapshot and of the receiver.
pub record Subscriber : Type 0 where
  pub stage : Stage
  pub initial : List EventLine
  pub queue : List EventLine
  pub written : List EventLine
  pub lagged : Bool

-- Where the accept loop stands.
pub data Acceptor : Type 0 where
  accepting stopped : Acceptor
  snapshotting : ℕ → Acceptor

-- `pending` is an event between the lock on the snapshot and the send. Subscribers are numbered in
-- the order of their subscriptions.
pub record World : Type 0 where
  pub publisher : Publisher
  pub pending : List EventLine
  pub acceptor : Acceptor
  pub subscribers : Map ℕ Subscriber
  pub next : ℕ

unfoldable pub new : World
new = record {
  publisher = Publisher.idle;
  pending = [];
  acceptor = accepting;
  subscribers = [];
  next = 0;
}

abbrev pub to_pending : Option EventLine → List EventLine
to_pending none = []
to_pending (some ev) = ev ∷ []

unfoldable pub note : Hotplug → World → World
note h w =
    let (p, ev) = publish h w.publisher in record w { publisher = p; pending = to_pending ev }

abbrev pub enqueue : List EventLine → Subscriber → Subscriber
enqueue evs sub = record sub { queue = sub.queue ++ evs }

-- Every receiver gets the events.
unfoldable pub broadcast : List EventLine → Map ℕ Subscriber → Map ℕ Subscriber
broadcast evs [] = []
broadcast evs ((id, sub) ∷ m) = (id, enqueue evs sub) ∷ broadcast evs m

-- `tx.send`
unfoldable pub send : World → World
send w = record w { pending = []; subscribers = broadcast w.pending w.subscribers }

-- `hub.subscribe()`
unfoldable pub subscribe : World → World
subscribe w = record w {
  acceptor = snapshotting w.next;
  subscribers =
      Map.insert w.next
        (record { stage = subscribed; initial = []; queue = []; written = []; lagged = false })
        w.subscribers;
  next = w.next + 1;
}

-- The snapshot as `added` events, one for each entry, in any order.
abbrev pub Lists : List AddedDevice → Map (List ℕ) AddedDevice → Type 0
Lists devs m = (dev : AddedDevice) → (Memᴰ dev devs) ↔ (Map.get dev.busid m ≡ some dev)

-- `hub.snapshot_added()` and the spawn
unfoldable pub snapshot_added : ℕ → Subscriber → List AddedDevice → World → World
snapshot_added id sub devs w = record w {
  acceptor = accepting;
  subscribers =
      Map.insert id (record sub { stage = serving; initial = map added devs }) w.subscribers;
}

-- A line of the snapshot; a received event; an event that the receiver lost; a write that failed, or a
-- closed channel.
unfoldable pub write_initial : ℕ → Subscriber → EventLine → List EventLine → World → World
write_initial id sub ev rest w = record w {
  subscribers =
      Map.insert id (record sub { initial = rest; written = sub.written ++ (ev ∷ []) })
        w.subscribers;
}

unfoldable pub write_received : ℕ → Subscriber → EventLine → List EventLine → World → World
write_received id sub ev rest w = record w {
  subscribers =
      Map.insert id (record sub { queue = rest; written = sub.written ++ (ev ∷ []) }) w.subscribers;
}

unfoldable pub lag : ℕ → Subscriber → List EventLine → World → World
lag id sub rest w = record w {
  subscribers = Map.insert id (record sub { queue = rest; lagged = true }) w.subscribers;
}

unfoldable pub hang_up : ℕ → Subscriber → World → World
hang_up id sub w = record w {
  subscribers = Map.insert id (record sub { stage = closed }) w.subscribers;
}

unfoldable pub shutdown : World → World
shutdown w = record w { acceptor = stopped }

pub data Step : World → World → Type 0 where
  -- the publisher
  hotplug : (w : World) (h : Hotplug) → w.pending ≡ [] → Step w (note h w)
  sent : (w : World) → w.pending ≢ [] → Step w (send w)
  -- the accept loop
  accept : (w : World) → w.acceptor ≡ accepting → Step w (subscribe w)
  snapshot :
      (w : World) (id : ℕ) (sub : Subscriber) (devs : List AddedDevice)
      → w.acceptor ≡ snapshotting id
      → Map.get id w.subscribers ≡ some sub
      → sub.stage ≡ subscribed
      → Lists devs w.publisher.snapshot
      → Step w (snapshot_added id sub devs w)
  stop : (w : World) → w.acceptor ≡ accepting → Step w (shutdown w)
  -- a subscriber's task
  initial_line :
      (w : World) (id : ℕ) (sub : Subscriber) (ev : EventLine) (rest : List EventLine)
      → Map.get id w.subscribers ≡ some sub
      → sub.stage ≡ serving
      → sub.initial ≡ ev ∷ rest
      → Step w (write_initial id sub ev rest w)
  received_line :
      (w : World) (id : ℕ) (sub : Subscriber) (ev : EventLine) (rest : List EventLine)
      → Map.get id w.subscribers ≡ some sub
      → sub.stage ≡ serving
      → sub.initial ≡ []
      → sub.queue ≡ ev ∷ rest
      → Step w (write_received id sub ev rest w)
  lost :
      (w : World) (id : ℕ) (sub : Subscriber) (ev : EventLine) (rest : List EventLine)
      → Map.get id w.subscribers ≡ some sub
      → sub.queue ≡ ev ∷ rest
      → Step w (lag id sub rest w)
  ended :
      (w : World) (id : ℕ) (sub : Subscriber)
      → Map.get id w.subscribers ≡ some sub
      → sub.stage ≡ serving
      → Step w (hang_up id sub w)

pub data Run (w : World) : World → Type 0 where
  here : Run w w
  then_step : {v u : World} → Run w v → Step v u → Run w u
