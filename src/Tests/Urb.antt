-- ===== src/Tests/Urb.antt =====
-- The URB mode of crates/usbipd/src/daemon.rs.
use usbipd_darwin.Common.{
  ◌+◌, ◌*◌, ◌≤◌, true, ◌≡◌, ◌≢◌, ◌↔◌, ◌⊎◌, inl, refl, [], ◌∷◌, ◌++◌, some, none, ok, false, length,
  pos, nat_eq, if◌then◌else◌,
}
use usbipd_darwin.Common.Map
use usbipd_darwin.Daemon.Conn.{Conn, unexpected_eof}
use usbipd_darwin.Daemon.Urb.Requests.{buffer_length, dir_in}
use usbipd_darwin.Daemon.Urb.Framing.{submit_bytes}
use usbipd_darwin.Daemon.Urb.Reply.{
  epipe, eoverflow, control, transfer_result, outcome, reply_bytes, reply_fits,
}
use usbipd_darwin.Daemon.Urb.Tasks.{
  max_inflight_urbs, transferring, replying, finishing, ended, Task, end_transfer, write_reply,
  finish_task, Inflight, ret_submit, idle, inserting, Urbs, new, spawn_submit, insert_inflight,
  unlink_inflight, drain_inflight, cancel_task, abort_task,
}
use usbipd_darwin.Daemon.Urb.Steps.{
  submit, insert, abort, transferred, reply, finish, in_transfer, Step, Run, here, next,
}
use usbipd_darwin.Daemon.Urb.Invariant.{live, total, Run-bounded}
use usbipd_darwin.Daemon.Urb.Answers.{answers, submitted, unanswered, lost}
use usbipd_darwin.Daemon.Urb.Answers.Exact.{Run-answers_exact}
use usbipd_darwin.Daemon.Urb.Drain.Ends.{Next}
use usbipd_darwin.Daemon.Urb.Drain.Cancelled.{drain_inflight-drains}
use usbipd_darwin.Daemon.Urb.Races.{Silent, unlinked-Silent, stale_entry}
use usbipd_darwin.Tests.Samples.{basic_header, submit_command}

abbrev stream : Conn
stream = record {
  input = submit_bytes basic_header submit_command (7 ∷ 8 ∷ []) ++ (1 ∷ []);
  ending = unexpected_eof;
  sent = [];
  writes_left = 1;
}

reply_fits_example :
    let (status, actual_length, payload) =
      outcome
        (dir_in basic_header)
        (buffer_length submit_command)
        (transfer_result (dir_in basic_header) (7 ∷ 8 ∷ []) (control (ok []))) in
    (length payload ≤ (if dir_in basic_header then buffer_length submit_command else 0))
    × ((status ≡ pos 0)
        ⊎ (((status ≡ epipe) ⊎ (status ≡ eoverflow)) × (actual_length ≡ pos 0) × (payload ≡ [])))
    × (length (reply_bytes basic_header submit_command (7 ∷ 8 ∷ []) (control (ok [])))
        ≡ 48 + length payload)
reply_fits_example = reply_fits basic_header submit_command (7 ∷ 8 ∷ []) (control (ok []))

-- One submitted transfer on endpoint 0x81.
abbrev running : Task
running = record { seqnum = 5; phase = transferring; cancelled = false; aborted = false }

abbrev spawned : Urbs
spawned = record new {
  reader = inserting 5 (record { task = 0; ep_addr = 0x81 });
  tasks = (0, running) ∷ [];
  next_task = 1;
  permits = 255;
}

abbrev submitted_one : Urbs
submitted_one = insert_inflight 5 (record { task = 0; ep_addr = 0x81 }) spawned

new-spawned : spawn_submit 5 0x81 new ≡ some spawned
unfolding spawn_submit new Map.insert
new-spawned = refl

one_submit : Run new submitted_one
unfolding new
one_submit =
    next (next here (submit new spawned 5 0x81 refl new-spawned))
      (insert spawned 5 (record { task = 0; ep_addr = 0x81 }) refl)

one_submit_idle : submitted_one.reader ≡ idle
unfolding insert_inflight
one_submit_idle = refl

Run-bounded_example :
    (submitted_one.permits + total live submitted_one.tasks ≡ max_inflight_urbs)
    × (total live submitted_one.tasks ≤ max_inflight_urbs)
    × ((spawn_submit 6 0 submitted_one ≡ none)
        ↔ (total live submitted_one.tasks ≡ max_inflight_urbs))
Run-bounded_example = Run-bounded submitted_one 6 0 one_submit

at_entry : Map.get 5 submitted_one.inflight ≡ some (record { task = 0; ep_addr = 0x81 })
unfolding insert_inflight new Map.get Map.insert
at_entry = refl

at_task : Map.get 0 submitted_one.tasks ≡ some running
unfolding insert_inflight Map.get
at_task = refl

unlinked-Silent_example : Silent 0 (unlink_inflight 6 5 submitted_one)
unlinked-Silent_example =
    unlinked-Silent submitted_one (unlink_inflight 6 5 submitted_one) 6 5
      (record { task = 0; ep_addr = 0x81 }) running one_submit at_entry at_task refl here

stale_entry_example :
    (u : Urbs) × (info : Inflight) × (v : Task) × Run new u
    × (u.reader ≡ idle)
    × (u.sent ≡ new.sent ++ (ret_submit 5 ∷ []))
    × (Map.get 5 u.inflight ≡ some info)
    × (Map.get info.task u.tasks ≡ some v)
    × (v.phase ≡ ended)
unfolding new
stale_entry_example = stale_entry new spawned 5 0x81 here refl new-spawned

-- The client is gone.
abbrev drained : Urbs
drained = drain_inflight submitted_one

abbrev stopped_task : Task
stopped_task = record running { cancelled = true; aborted = true }

drained_task : Map.get 0 drained.tasks ≡ some stopped_task
unfolding drain_inflight insert_inflight cancel_task new Map.get Map.insert Map.values
drained_task = refl

-- Its transfer is stopped where it waits.
abbrev given_up : Urbs
given_up = abort_task 0 stopped_task drained

drain_inflight-drains_example :
    ((v : Task) × (Map.get 0 given_up.tasks ≡ some v)
      × (v.cancelled ≡ true)
      × ((v.phase ≡ finishing) ⊎ (v.phase ≡ ended) ⊎ Step given_up (abort_task 0 v given_up)))
    × ((running.phase ≢ transferring) ⊎ Silent 0 given_up)
    × (1 ≤ 3 * total live drained.tasks)
    × (Next given_up ⊎ ((total live given_up.tasks ≡ 0) × (given_up.permits ≡ max_inflight_urbs)))
drain_inflight-drains_example =
    drain_inflight-drains submitted_one given_up 5 (record { task = 0; ep_addr = 0x81 }) running
      one_submit (inl one_submit_idle) at_entry at_task
      (next here (abort drained 0 stopped_task drained_task refl in_transfer))

-- The transfer ends, its reply is written, and the task is over.
abbrev transfer_over : Urbs
transfer_over = end_transfer 0 running submitted_one

abbrev replying_task : Task
replying_task = record running { phase = replying }

abbrev reply_sent : Urbs
reply_sent = write_reply 0 replying_task transfer_over

abbrev finishing_task : Task
finishing_task = record running { phase = finishing }

abbrev task_over : Urbs
task_over = finish_task 0 finishing_task reply_sent

task_over-Run : Run new task_over
unfolding new insert_inflight end_transfer write_reply Map.get Map.insert
task_over-Run =
    next
      (next (next one_submit (transferred submitted_one 0 running at_task refl))
        (reply transfer_over 0 replying_task refl refl))
      (finish reply_sent 0 finishing_task refl refl)

Run-answers_exact_example :
    (answers 5 task_over.sent + total (unanswered 5) task_over.tasks + lost 5 task_over-Run
      ≡ total (submitted 5) task_over.tasks)
    × ((total live task_over.tasks ≢ 0)
        ⊎ (answers 5 task_over.sent + lost 5 task_over-Run ≡ total (submitted 5) task_over.tasks))
Run-answers_exact_example = Run-answers_exact 5 task_over task_over-Run
