-- ===== src/Daemon/Urb/Steps.antt =====
-- The interleavings of the loop and the tasks.
use usbipd_darwin.Common.{ℕ, some, true, ◌≡◌, nat_eq}
use usbipd_darwin.Common.Map
use usbipd_darwin.Daemon.Urb.Tasks.{
  Phase, transferring, replying, finishing, Task, Inflight, idle, inserting, unlinking, Urbs,
  spawn_submit, insert_inflight, unlink_inflight, write_unlink, drain_inflight, end_transfer,
  write_reply, skip_reply, finish_task, abort_task,
}

-- The task may be stopped here: it waits for the blocking transfer or for the writer.
pub data Waits : Phase → Type 0 where
  in_transfer : Waits transferring
  for_writer : Waits replying

pub data Step : Urbs → Urbs → Type 0 where
  -- the loop
  submit :
      (s t : Urbs) (seqnum ep_addr : ℕ)
      → s.reader ≡ idle
      → spawn_submit seqnum ep_addr s ≡ some t
      → Step s t
  insert :
      (s : Urbs) (seqnum : ℕ) (info : Inflight)
      → s.reader ≡ inserting seqnum info
      → Step s (insert_inflight seqnum info s)
  unlink :
      (s : Urbs) (seqnum unlink_seqnum : ℕ)
      → s.reader ≡ idle
      → Step s (unlink_inflight seqnum unlink_seqnum s)
  reply_unlink :
      (s : Urbs) (seqnum : ℕ) → s.reader ≡ unlinking seqnum → Step s (write_unlink seqnum s)
  disconnect : (s : Urbs) → s.reader ≡ idle → Step s (drain_inflight s)
  unlink_failed : (s : Urbs) (seqnum : ℕ) → s.reader ≡ unlinking seqnum → Step s (drain_inflight s)
  -- a task
  transferred :
      (s : Urbs) (id : ℕ) (t : Task)
      → Map.get id s.tasks ≡ some t
      → t.phase ≡ transferring
      → Step s (end_transfer id t s)
  reply :
      (s : Urbs) (id : ℕ) (t : Task)
      → Map.get id s.tasks ≡ some t
      → t.phase ≡ replying
      → Step s (write_reply id t s)
  join_failed :
      (s : Urbs) (id : ℕ) (t : Task)
      → Map.get id s.tasks ≡ some t
      → t.phase ≡ transferring
      → Step s (skip_reply id t s)
  write_failed :
      (s : Urbs) (id : ℕ) (t : Task)
      → Map.get id s.tasks ≡ some t
      → t.phase ≡ replying
      → Step s (skip_reply id t s)
  finish :
      (s : Urbs) (id : ℕ) (t : Task)
      → Map.get id s.tasks ≡ some t
      → t.phase ≡ finishing
      → Step s (finish_task id t s)
  abort :
      (s : Urbs) (id : ℕ) (t : Task)
      → Map.get id s.tasks ≡ some t
      → t.aborted ≡ true
      → Waits t.phase
      → Step s (abort_task id t s)

pub data Run (s : Urbs) : Urbs → Type 0 where
  here : Run s s
  next : {t u : Urbs} → Run s t → Step t u → Run s u
