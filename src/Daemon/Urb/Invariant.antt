-- ===== src/Daemon/Urb/Invariant.antt =====
-- What holds of every interleaving of the loop and the tasks.
use usbipd_darwin.Common.{
  Nat-cases, ℕ, ◌+◌, ◌≤◌, List, [], ◌∷◌, none, some, true, false, ◌≡◌, ◌↔◌, inl, inr, refl, ap,
  arith, nat_eq, nat_beq_iff, if◌then◌else◌, Option-cases,
}
use usbipd_darwin.Common.Map
use usbipd_darwin.Common.Map.{Map}
use usbipd_darwin.Daemon.Urb.Tasks.{
  max_inflight_urbs, Phase, transferring, replying, finishing, ended, Task, Inflight, closed, Urbs,
  new, spawn_submit, insert_inflight, update_task, cancel_task, unlink_inflight, write_unlink,
  cancel_all, drain_inflight, end_transfer, write_reply, skip_reply, finish_task, abort_task,
}
use usbipd_darwin.Daemon.Urb.Steps.{
  Waits, in_transfer, for_writer, Step, submit, insert, unlink, reply_unlink, disconnect,
  unlink_failed, transferred, reply, join_failed, write_failed, finish, abort, Run, here, next,
}

-- A sum over the tasks.
module _ (w : Task → ℕ) where
  unfoldable pub total : Map ℕ Task → ℕ
  total [] = 0
  total ((id, t) ∷ m) = w t + total m

  pub total-insert_new :
      (id : ℕ) (t : Task) (m : Map ℕ Task)
      → Map.get id m ≡ none
      → total (Map.insert id t m) ≡ total m + w t
  unfolding total Map.get Map.insert
  total-insert_new id t [] h = omega arith
  total-insert_new id t ((j, u) ∷ m) h = ground (arith, total-insert_new id t m)

  pub total-insert_old :
      (id : ℕ) (t u : Task) (m : Map ℕ Task)
      → Map.get id m ≡ some u
      → total (Map.insert id t m) + w u ≡ total m + w t
  unfolding total Map.get Map.insert
  total-insert_old id t u [] h = cc
  total-insert_old id t u ((j, v) ∷ m) h = ground (arith, total-insert_old id t u m)

abbrev pub live : Task → ℕ
live t = elim t.phase as (λ _. ℕ) [ ended ↦ 0 | _ ↦ 1 ]

Waits-live : (t : Task) (p : Phase) → Waits p → t.phase ≡ p → live t ≡ 1
Waits-live t transferring in_transfer h = rw h refl
Waits-live t replying for_writer h = rw h refl
Waits-live t finishing w h = elim w [ ]
Waits-live t ended w h = elim w [ ]

-- Every task that has not ended holds a permit, and task numbers are not used twice.
pub record Inv (s : Urbs) : Type 0 where
  pub budget : s.permits + total live s.tasks ≡ max_inflight_urbs
  pub fresh : (id : ℕ) → s.next_task ≤ id → Map.get id s.tasks ≡ none

pub update_task-none :
    (id : ℕ) (f : Task → Task) (m : Map ℕ Task) → Map.get id m ≡ none → update_task id f m ≡ m
update_task-none id f m missing = ground (arith, missing)

pub update_task-some :
    (id : ℕ) (f : Task → Task) (m : Map ℕ Task) (t : Task)
    → Map.get id m ≡ some t
    → update_task id f m ≡ Map.insert id (f t) m
update_task-some id f m t found = ground (arith, found)

-- A state with the same tasks and permits.
same-Inv :
    (s r : Urbs)
    → r.tasks ≡ s.tasks
    → r.next_task ≡ s.next_task
    → r.permits ≡ s.permits
    → Inv s
    → Inv r
same-Inv s r tasks kept permits inv = record {
  budget = omega (arith, inv.budget, ap (total live) tasks);
  fresh = λ j h. ground (arith, inv.fresh j, ap (Map.get j) tasks);
}

-- A task that changes and keeps its number, with the permits that go with it.
change-Inv :
    (s : Urbs) (id : ℕ) (t u : Task) (r : Urbs)
    → Map.get id s.tasks ≡ some t
    → r.tasks ≡ Map.insert id u s.tasks
    → r.next_task ≡ s.next_task
    → r.permits + live u ≡ s.permits + live t
    → Inv s
    → Inv r
change-Inv s id t u r found tasks same permits inv = record {
  budget =
      omega (arith, inv.budget, total-insert_old live id u t s.tasks found, ap (total live) tasks);
  fresh = λ j h. ground (
    arith,
    inv.fresh j,
    found,
    Map.get-insert id j u s.tasks,
    nat_beq_iff id j,
    ap (Map.get j) tasks,
  );
}

abbrev pub stopped : Task → Task
stopped t = record t { cancelled = true; aborted = true }

cancel_task-Inv : (id : ℕ) (s : Urbs) → Inv s → Inv (cancel_task id s)
unfolding cancel_task
cancel_task-Inv id s inv = elim (Option-cases (Map.get id s.tasks)) [
  | inl missing ↦
      same-Inv s (cancel_task id s) (update_task-none id stopped s.tasks missing) refl refl inv
  | inr (t, found) ↦
      change-Inv s id t (stopped t) (cancel_task id s) found
        (update_task-some id stopped s.tasks t found) refl refl inv
]

cancel_all-Inv : (infos : List Inflight) (s : Urbs) → Inv s → Inv (cancel_all infos s)
unfolding cancel_all
cancel_all-Inv [] s inv = inv
cancel_all-Inv (i ∷ is) s inv =
    cancel_all-Inv is (cancel_task i.task s) (cancel_task-Inv i.task s inv)

spawn_submit-Inv :
    (s t : Urbs) (seqnum ep_addr : ℕ) → spawn_submit seqnum ep_addr s ≡ some t → Inv s → Inv t
unfolding spawn_submit
spawn_submit-Inv s t seqnum ep_addr h inv = elim (Nat-cases s.permits) [
  | inl z ↦ absurd (ground arith)
  | inr (left, z) ↦
      let task : Task = record {
        seqnum = seqnum;
        phase = transferring;
        cancelled = false;
        aborted = false;
      } in
      let same : t.tasks ≡ Map.insert s.next_task task s.tasks = ground arith in
      record {
        budget = ground (
          arith,
          inv.budget,
          total-insert_new live s.next_task task s.tasks (inv.fresh s.next_task (omega arith)),
          ap (total live) same,
        );
        fresh = λ j hj. ground (
          arith,
          inv.fresh j,
          Map.get-insert s.next_task j task s.tasks,
          nat_beq_iff s.next_task j,
          ap (Map.get j) same,
        );
      }
]

pub unlink_inflight-Inv :
    (s : Urbs) (seqnum unlink_seqnum : ℕ) → Inv s → Inv (unlink_inflight seqnum unlink_seqnum s)
unfolding unlink_inflight
unlink_inflight-Inv s seqnum unlink_seqnum inv =
    elim (Option-cases (Map.get unlink_seqnum s.inflight)) [
      | inl h ↦
          same-Inv s (unlink_inflight seqnum unlink_seqnum s) (ground arith) (ground arith)
            (ground arith) inv
      | inr (info, h) ↦
          same-Inv (cancel_task info.task s) (unlink_inflight seqnum unlink_seqnum s)
            (unfold cancel_task in ground arith) (unfold cancel_task in ground arith)
            (unfold cancel_task in ground arith) (cancel_task-Inv info.task s inv)
    ]

drain_inflight-Inv : (s : Urbs) → Inv s → Inv (drain_inflight s)
unfolding drain_inflight
drain_inflight-Inv s inv =
    cancel_all-Inv (Map.values s.inflight) (record s { reader = closed; inflight = [] })
      (same-Inv s (record s { reader = closed; inflight = [] }) refl refl refl inv)

pub Step-Inv : {s t : Urbs} → Step s t → Inv s → Inv t
unfolding insert_inflight write_unlink end_transfer write_reply skip_reply finish_task abort_task
Step-Inv (submit s t seqnum ep_addr _ h) inv = spawn_submit-Inv s t seqnum ep_addr h inv
Step-Inv (insert s seqnum info _) inv =
    same-Inv s (insert_inflight seqnum info s) refl refl refl inv
Step-Inv (unlink s seqnum unlink_seqnum _) inv = unlink_inflight-Inv s seqnum unlink_seqnum inv
Step-Inv (reply_unlink s seqnum _) inv = same-Inv s (write_unlink seqnum s) refl refl refl inv
Step-Inv (disconnect s _) inv = drain_inflight-Inv s inv
Step-Inv (unlink_failed s seqnum _) inv = drain_inflight-Inv s inv
Step-Inv (transferred s id t found p) inv =
    change-Inv s id t (record t { phase = if t.cancelled then finishing else replying })
      (end_transfer id t s) found refl refl (ground arith) inv
Step-Inv (reply s id t found p) inv =
    change-Inv s id t (record t { phase = finishing }) (write_reply id t s) found refl refl
      (rw p refl) inv
Step-Inv (join_failed s id t found p) inv =
    change-Inv s id t (record t { phase = finishing }) (skip_reply id t s) found refl refl
      (rw p refl) inv
Step-Inv (write_failed s id t found p) inv =
    change-Inv s id t (record t { phase = finishing }) (skip_reply id t s) found refl refl
      (rw p refl) inv
Step-Inv (finish s id t found p) inv =
    change-Inv s id t (record t { phase = ended }) (finish_task id t s) found refl refl
      (rw p (omega arith)) inv
Step-Inv (abort s id t found a w) inv =
    change-Inv s id t (record t { phase = ended }) (abort_task id t s) found refl refl
      (omega (arith, Waits-live t t.phase w refl)) inv

pub Run-Inv : {s t : Urbs} → Run s t → Inv s → Inv t
Run-Inv here inv = inv
Run-Inv (next r st) inv = Step-Inv st (Run-Inv r inv)

pub new-Inv : Inv new
unfolding new total Map.get
new-Inv = record { budget = refl; fresh = λ id h. refl }

-- In every interleaving the tasks that are not over and the free permits make up the limit, so
-- there are never more than `MAX_INFLIGHT_URBS` of them, and the loop is held up at a CMD_SUBMIT
-- exactly when there are as many.
pub Run-bounded :
    (s : Urbs) (seqnum ep_addr : ℕ)
    → Run new s
    → (s.permits + total live s.tasks ≡ max_inflight_urbs)
      × (total live s.tasks ≤ max_inflight_urbs)
      × ((spawn_submit seqnum ep_addr s ≡ none) ↔ (total live s.tasks ≡ max_inflight_urbs))
unfolding spawn_submit
Run-bounded s seqnum ep_addr r =
    let inv = Run-Inv r new-Inv in
    (inv.budget, omega (arith, inv.budget), ground (arith, inv.budget))
