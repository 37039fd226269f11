-- ===== src/Daemon/Urb/Tasks.antt =====
-- The state that the URB loop and the transfer tasks of crates/usbipd/src/daemon.rs share, and what
-- each of their steps does to it. A step runs under one lock, or up to the next `await`; a write is one
-- step here, and Daemon/Urb/Writer has it byte by byte.
use usbipd_darwin.Common.{
  ℕ, zero, suc, ◌+◌, List, [], ◌∷◌, ◌++◌, Option, none, some, Bool, true, false, ◌==◌, nat_eq,
  if◌then◌else◌,
}
use usbipd_darwin.Common.Map
use usbipd_darwin.Common.Map.{Map}

-- `Semaphore::new(MAX_INFLIGHT_URBS)`
abbrev pub max_inflight_urbs : ℕ
max_inflight_urbs = 256

-- Where a task of `run_submit` stands: in the blocking transfer; behind the test of the flag, with the
-- reply still to write; behind the write, before it takes itself off the table; ended.
pub data Phase : Type 0 where
  transferring replying finishing ended : Phase

-- `cancelled` is the shared flag and `aborted` what `AbortHandle::abort` sets.
pub record Task : Type 0 where
  pub seqnum : ℕ
  pub phase : Phase
  pub cancelled : Bool
  pub aborted : Bool

-- `Inflight`: the task stands for its abort handle and its flag.
pub record Inflight : Type 0 where
  pub task : ℕ
  pub ep_addr : ℕ

pub data Message : Type 0 where
  ret_submit ret_unlink : ℕ → Message

-- Where the loop stands: at the next header; between the spawn of a task and its entry in the table;
-- between the cancellation and the RET_UNLINK; past the loop.
pub data Reader : Type 0 where
  idle closed : Reader
  inserting : ℕ → Inflight → Reader
  unlinking : ℕ → Reader

-- Tasks are numbered in the order of their spawns.
pub record Urbs : Type 0 where
  pub reader : Reader
  pub inflight : Map ℕ Inflight
  pub tasks : Map ℕ Task
  pub next_task : ℕ
  pub permits : ℕ
  pub sent : List Message
  pub cancelled_endpoints : List ℕ

unfoldable pub new : Urbs
new = record {
  reader = idle;
  inflight = [];
  tasks = [];
  next_task = 0;
  permits = max_inflight_urbs;
  sent = [];
  cancelled_endpoints = [];
}

abbrev pub update_task : ℕ → (Task → Task) → Map ℕ Task → Map ℕ Task
update_task id f tasks = elim (Map.get id tasks) as (λ _. Map ℕ Task) [
  | none ↦ tasks
  | some t ↦ Map.insert id (f t) tasks
]

-- `acquire_owned().await` and `tokio::spawn`: `none` while there is no permit.
unfoldable pub spawn_submit : ℕ → ℕ → Urbs → Option Urbs
spawn_submit seqnum ep_addr s = elim s.permits as (λ _. Option Urbs) [
  | zero ↦ none
  | suc left ↦ some (record s {
    reader = inserting seqnum (record { task = s.next_task; ep_addr = ep_addr });
    tasks =
        Map.insert s.next_task
          (record { seqnum = seqnum; phase = transferring; cancelled = false; aborted = false })
          s.tasks;
    next_task = s.next_task + 1;
    permits = left;
  })
]

-- The entry of the table.
unfoldable pub insert_inflight : ℕ → Inflight → Urbs → Urbs
insert_inflight seqnum info s = record s {
  reader = idle;
  inflight = Map.insert seqnum info s.inflight;
}

-- `cancelled.store(true)` and `abort.abort()`
unfoldable pub cancel_task : ℕ → Urbs → Urbs
cancel_task id s = record s {
  tasks = update_task id (λ t. record t { cancelled = true; aborted = true }) s.tasks;
}

-- The locked block of `handle_cmd_unlink`.
unfoldable pub unlink_inflight : ℕ → ℕ → Urbs → Urbs
unfolding cancel_task
unlink_inflight seqnum unlink_seqnum s = elim (Map.get unlink_seqnum s.inflight) as (λ _. Urbs) [
  | none ↦ record s { reader = unlinking seqnum }
  | some info ↦ cancel_task info.task (record s {
    reader = unlinking seqnum;
    inflight = Map.remove unlink_seqnum s.inflight;
    cancelled_endpoints =
        if info.ep_addr == 0
        then s.cancelled_endpoints
        else s.cancelled_endpoints ++ (info.ep_addr ∷ []);
  })
]

-- The write of the RET_UNLINK.
unfoldable pub write_unlink : ℕ → Urbs → Urbs
write_unlink seqnum s = record s { reader = idle; sent = s.sent ++ (ret_unlink seqnum ∷ []) }

-- `drain_inflight`: the table is emptied, and each task in it cancelled.
unfoldable pub cancel_all : List Inflight → Urbs → Urbs
unfolding cancel_task
cancel_all [] s = s
cancel_all (info ∷ infos) s = cancel_all infos (cancel_task info.task s)

unfoldable pub drain_inflight : Urbs → Urbs
unfolding cancel_all
drain_inflight s = cancel_all (Map.values s.inflight) (record s { reader = closed; inflight = [] })

-- A task behind its transfer: `if cancelled.load(..) { return; }`.
unfoldable pub end_transfer : ℕ → Task → Urbs → Urbs
end_transfer id t s = record s {
  tasks = Map.insert id (record t { phase = if t.cancelled then finishing else replying }) s.tasks;
}

-- The write of the RET_SUBMIT.
unfoldable pub write_reply : ℕ → Task → Urbs → Urbs
write_reply id t s = record s {
  tasks = Map.insert id (record t { phase = finishing }) s.tasks;
  sent = s.sent ++ (ret_submit t.seqnum ∷ []);
}

-- A transfer whose join failed, or a write that failed: the task goes on with nothing sent.
unfoldable pub skip_reply : ℕ → Task → Urbs → Urbs
skip_reply id t s = record s { tasks = Map.insert id (record t { phase = finishing }) s.tasks }

-- The end of the task: off the table, and the permit is dropped.
unfoldable pub finish_task : ℕ → Task → Urbs → Urbs
finish_task id t s = record s {
  tasks = Map.insert id (record t { phase = ended }) s.tasks;
  inflight = Map.remove t.seqnum s.inflight;
  permits = s.permits + 1;
}

-- An abort takes effect where the task waits, and drops the permit too.
unfoldable pub abort_task : ℕ → Task → Urbs → Urbs
abort_task id t s = record s {
  tasks = Map.insert id (record t { phase = ended }) s.tasks;
  permits = s.permits + 1;
}
