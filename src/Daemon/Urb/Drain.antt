-- ===== src/Daemon/Urb/Drain.antt =====
-- The URB loop behind its end: what is left of the transfer tasks.
use usbipd_darwin.Common.{
  Nat-cases, ℕ, List, [], ◌∷◌, none, some, false, ◌≡◌, inl, inr, refl, sym, subst, arith, nat_eq,
  nat_beq_iff, if◌then◌else◌, Option-cases, Bool-cases, ◌==◌,
}
use usbipd_darwin.Common.Map
use usbipd_darwin.Common.Map.{Map}
use usbipd_darwin.Daemon.Urb.Tasks.{
  transferring, replying, finishing, ended, Task, Inflight, closed, Urbs, new, spawn_submit,
  insert_inflight, cancel_task, unlink_inflight, write_unlink, cancel_all, drain_inflight,
  end_transfer, write_reply, skip_reply, finish_task, abort_task,
}
use usbipd_darwin.Daemon.Urb.Steps.{
  Step, submit, insert, unlink, reply_unlink, disconnect, unlink_failed, transferred, reply,
  join_failed, write_failed, finish, abort, Run, here, next,
}
use usbipd_darwin.Daemon.Urb.Invariant.{stopped, update_task-none, update_task-some}
pub mod Ends
pub mod Cancelled

-- A number stands for one task at most.
unfoldable pub Distinct : Map ℕ Task → Type 0
Distinct [] = Unit
Distinct ((j, t) ∷ m) = (Map.get j m ≡ none) × Distinct m

insert-Distinct : (k : ℕ) (t : Task) (m : Map ℕ Task) → Distinct m → Distinct (Map.insert k t m)
unfolding Distinct Map.get Map.insert
insert-Distinct k t [] d = (refl, tt)
insert-Distinct k t ((j, u) ∷ m) (first, d) = elim (Bool-cases (j == k)) [
  | inl same ↦
      let taken : Map.insert k t ((j, u) ∷ m) ≡ (k, t) ∷ m = ground (arith, same) in
      subst Distinct (sym taken) (ground (arith, first, same, nat_beq_iff j k), d)
  | inr other ↦
      let kept : Map.insert k t ((j, u) ∷ m) ≡ (j, u) ∷ Map.insert k t m = ground (arith, other) in
      subst Distinct (sym kept) (
        ground (arith, first, other, Map.get-insert k j t m, nat_beq_iff j k, nat_beq_iff k j),
        insert-Distinct k t m d,
      )
]

cancel_task-Distinct : (id : ℕ) (s : Urbs) → Distinct s.tasks → Distinct (cancel_task id s).tasks
unfolding cancel_task
cancel_task-Distinct id s d = elim (Option-cases (Map.get id s.tasks)) [
  | inl missing ↦ subst Distinct (sym (update_task-none id stopped s.tasks missing)) d
  | inr (t, found) ↦
      subst Distinct (sym (update_task-some id stopped s.tasks t found))
        (insert-Distinct id (stopped t) s.tasks d)
]

cancel_all-Distinct :
    (infos : List Inflight) (s : Urbs) → Distinct s.tasks → Distinct (cancel_all infos s).tasks
unfolding cancel_all
cancel_all-Distinct [] s d = d
cancel_all-Distinct (i ∷ is) s d =
    cancel_all-Distinct is (cancel_task i.task s) (cancel_task-Distinct i.task s d)

spawn_submit-Distinct :
    (s t : Urbs) (seqnum ep_addr : ℕ)
    → spawn_submit seqnum ep_addr s ≡ some t
    → Distinct s.tasks
    → Distinct t.tasks
unfolding spawn_submit
spawn_submit-Distinct s t seqnum ep_addr h d = elim (Nat-cases s.permits) [
  | inl z ↦ absurd (ground arith)
  | inr (left, z) ↦
      let task : Task = record {
        seqnum = seqnum;
        phase = transferring;
        cancelled = false;
        aborted = false;
      } in
      let same : t.tasks ≡ Map.insert s.next_task task s.tasks = ground arith in
      subst Distinct (sym same) (insert-Distinct s.next_task task s.tasks d)
]

unlink_inflight-Distinct :
    (s : Urbs) (seqnum unlink_seqnum : ℕ)
    → Distinct s.tasks
    → Distinct (unlink_inflight seqnum unlink_seqnum s).tasks
unfolding unlink_inflight
unlink_inflight-Distinct s seqnum unlink_seqnum d =
    elim (Option-cases (Map.get unlink_seqnum s.inflight)) [
      | inl h ↦
          let same : (unlink_inflight seqnum unlink_seqnum s).tasks ≡ s.tasks = ground arith in
          subst Distinct (sym same) d
      | inr (info, h) ↦
          let same : (unlink_inflight seqnum unlink_seqnum s).tasks
              ≡ (cancel_task info.task s).tasks =
            (unfold cancel_task in ground arith) in
          subst Distinct (sym same) (cancel_task-Distinct info.task s d)
    ]

drain_inflight-Distinct : (s : Urbs) → Distinct s.tasks → Distinct (drain_inflight s).tasks
unfolding drain_inflight
drain_inflight-Distinct s d =
    cancel_all-Distinct (Map.values s.inflight) (record s { reader = closed; inflight = [] }) d

Step-Distinct : {s t : Urbs} → Step s t → Distinct s.tasks → Distinct t.tasks
unfolding insert_inflight write_unlink end_transfer write_reply skip_reply finish_task abort_task
Step-Distinct (submit s t seqnum ep_addr _ h) d = spawn_submit-Distinct s t seqnum ep_addr h d
Step-Distinct (insert s seqnum info _) d = d
Step-Distinct (unlink s seqnum unlink_seqnum _) d =
    unlink_inflight-Distinct s seqnum unlink_seqnum d
Step-Distinct (reply_unlink s seqnum _) d = d
Step-Distinct (disconnect s _) d = drain_inflight-Distinct s d
Step-Distinct (unlink_failed s seqnum _) d = drain_inflight-Distinct s d
Step-Distinct (transferred s id t found p) d =
    insert-Distinct id (record t { phase = if t.cancelled then finishing else replying }) s.tasks d
Step-Distinct (reply s id t found p) d =
    insert-Distinct id (record t { phase = finishing }) s.tasks d
Step-Distinct (join_failed s id t found p) d =
    insert-Distinct id (record t { phase = finishing }) s.tasks d
Step-Distinct (write_failed s id t found p) d =
    insert-Distinct id (record t { phase = finishing }) s.tasks d
Step-Distinct (finish s id t found p) d = insert-Distinct id (record t { phase = ended }) s.tasks d
Step-Distinct (abort s id t found a w) d = insert-Distinct id (record t { phase = ended }) s.tasks d

pub Run-Distinct : {t : Urbs} → Run new t → Distinct t.tasks
unfolding new Distinct
Run-Distinct here = tt
Run-Distinct (next r st) = Step-Distinct st (Run-Distinct r)
