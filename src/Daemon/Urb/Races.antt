-- ===== src/Daemon/Urb/Races.antt =====
-- The order of the loop's steps and a task's.
use usbipd_darwin.Common.{
  Nat-cases, ℕ, List, [], ◌∷◌, ◌++◌, some, true, false, ◌≡◌, ◌≢◌, inl, inr, refl, ap, ◌∙◌, arith,
  ◌==◌, nat_eq, nat_beq_iff, if◌then◌else◌, Option-cases, Bool-cases,
}
use usbipd_darwin.Common.Map
use usbipd_darwin.Common.Map.{Map}
use usbipd_darwin.Daemon.Urb.Tasks.{
  transferring, replying, finishing, ended, Task, Inflight, ret_submit, idle, closed, inserting,
  Urbs, new, spawn_submit, insert_inflight, cancel_task, unlink_inflight, write_unlink, cancel_all,
  drain_inflight, end_transfer, write_reply, skip_reply, finish_task, abort_task,
}
use usbipd_darwin.Daemon.Urb.Steps.{
  Step, submit, insert, unlink, reply_unlink, disconnect, unlink_failed, transferred, reply,
  join_failed, write_failed, finish, abort, Run, here, next,
}
use usbipd_darwin.Daemon.Urb.Invariant.{
  Inv, Run-Inv, unlink_inflight-Inv, update_task-none, update_task-some, stopped, new-Inv,
}

get-inserted : {A : Type 0} (k : ℕ) (a : A) (m : Map ℕ A) → Map.get k (Map.insert k a m) ≡ some a
get-inserted k a m = ground (arith, Map.get-insert k k a m, Map.beq_refl k)

-- The task has its flag set and has no reply to write.
abbrev pub Silent : ℕ → Urbs → Type 0
Silent id s =
    (t : Task) × (Map.get id s.tasks ≡ some t) × (t.cancelled ≡ true) × (t.phase ≢ replying)

insert-Silent :
    (id j : ℕ) (t u : Task) (s r : Urbs)
    → Map.get j s.tasks ≡ some t
    → r.tasks ≡ Map.insert j u s.tasks
    → (t.cancelled ≡ true → t.phase ≢ replying → (u.cancelled ≡ true) × (u.phase ≢ replying))
    → Silent id s
    → Silent id r
insert-Silent id j t u s r found tasks kept (v, at, flag, quiet) = elim (Bool-cases (j == id)) [
  | inl same ↦
      let one : v ≡ t = ground (arith, nat_beq_iff j id) in
      let (flag1, quiet1) = kept (ground arith) (λ h. quiet (ap (λ x. x.phase) one ∙ h)) in
      (u, ground (arith, Map.get-insert j id u s.tasks, ap (Map.get id) tasks), flag1, quiet1)
  | inr other ↦
      (v, ground (arith, Map.get-insert j id u s.tasks, ap (Map.get id) tasks), flag, quiet)
]

cancel_task-Silent : (id j : ℕ) (s : Urbs) → Silent id s → Silent id (cancel_task j s)
unfolding cancel_task
cancel_task-Silent id j s q = elim (Option-cases (Map.get j s.tasks)) [
  | inl missing ↦
      let (v, at, flag, quiet) = q in
      (v, ap (Map.get id) (update_task-none j stopped s.tasks missing) ∙ at, flag, quiet)
  | inr (t, found) ↦
      insert-Silent id j t (stopped t) s (cancel_task j s) found
        (update_task-some j stopped s.tasks t found) (λ flag quiet. (refl, quiet)) q
]

cancel_all-Silent :
    (id : ℕ) (infos : List Inflight) (s : Urbs) → Silent id s → Silent id (cancel_all infos s)
unfolding cancel_all
cancel_all-Silent id [] s q = q
cancel_all-Silent id (i ∷ is) s q =
    cancel_all-Silent id is (cancel_task i.task s) (cancel_task-Silent id i.task s q)

spawn_submit-Silent :
    (id : ℕ) (s t : Urbs) (seqnum ep_addr : ℕ)
    → spawn_submit seqnum ep_addr s ≡ some t
    → Inv s
    → Silent id s
    → Silent id t
unfolding spawn_submit
spawn_submit-Silent id s t seqnum ep_addr h inv (v, at, flag, quiet) = elim (Nat-cases s.permits) [
  | inl z ↦ absurd (ground arith)
  | inr (left, z) ↦
      let task : Task = record {
        seqnum = seqnum;
        phase = transferring;
        cancelled = false;
        aborted = false;
      } in
      let same : t.tasks ≡ Map.insert s.next_task task s.tasks = ground arith in
      (
        v,
        ground (
          arith,
          inv.fresh s.next_task (omega arith),
          Map.get-insert s.next_task id task s.tasks,
          nat_beq_iff s.next_task id,
          ap (Map.get id) same,
          at,
        ),
        flag,
        quiet,
      )
]

unlink_inflight-Silent :
    (id : ℕ) (s : Urbs) (seqnum unlink_seqnum : ℕ)
    → Silent id s
    → Silent id (unlink_inflight seqnum unlink_seqnum s)
unfolding unlink_inflight
unlink_inflight-Silent id s seqnum unlink_seqnum q =
    elim (Option-cases (Map.get unlink_seqnum s.inflight)) [
      | inl h ↦
          let (v, at, flag, quiet) = q in
          let same : (unlink_inflight seqnum unlink_seqnum s).tasks ≡ s.tasks = ground arith in
          (v, ap (Map.get id) same ∙ at, flag, quiet)
      | inr (info, h) ↦
          let (v, at, flag, quiet) = cancel_task-Silent id info.task s q in
          let same : (unlink_inflight seqnum unlink_seqnum s).tasks
              ≡ (cancel_task info.task s).tasks =
            unfold cancel_task in ground arith in
          (v, ap (Map.get id) same ∙ at, flag, quiet)
    ]

Step-Silent : {s t : Urbs} (id : ℕ) → Step s t → Inv s → Silent id s → Silent id t
unfolding insert_inflight write_unlink end_transfer write_reply skip_reply finish_task abort_task
    drain_inflight
Step-Silent id (submit s t seqnum ep_addr _ h) inv q =
    spawn_submit-Silent id s t seqnum ep_addr h inv q
Step-Silent id (insert s seqnum info _) inv q = q
Step-Silent id (unlink s seqnum unlink_seqnum _) inv q =
    unlink_inflight-Silent id s seqnum unlink_seqnum q
Step-Silent id (reply_unlink s seqnum _) inv q = q
Step-Silent id (disconnect s _) inv q =
    cancel_all-Silent id (Map.values s.inflight) (record s { reader = closed; inflight = [] }) q
Step-Silent id (unlink_failed s seqnum _) inv q =
    cancel_all-Silent id (Map.values s.inflight) (record s { reader = closed; inflight = [] }) q
Step-Silent id (transferred s j t found p) inv q =
    insert-Silent id j t (record t { phase = if t.cancelled then finishing else replying }) s
      (end_transfer j t s) found refl (λ flag _. (flag, λ h. ground (arith, flag, h))) q
Step-Silent id (reply s j t found p) inv q =
    insert-Silent id j t (record t { phase = finishing }) s (write_reply j t s) found refl
      (λ flag _. (flag, λ h. ground (arith, h))) q
Step-Silent id (join_failed s j t found p) inv q =
    insert-Silent id j t (record t { phase = finishing }) s (skip_reply j t s) found refl
      (λ flag _. (flag, λ h. ground (arith, h))) q
Step-Silent id (write_failed s j t found p) inv q =
    insert-Silent id j t (record t { phase = finishing }) s (skip_reply j t s) found refl
      (λ flag _. (flag, λ h. ground (arith, h))) q
Step-Silent id (finish s j t found p) inv q =
    insert-Silent id j t (record t { phase = ended }) s (finish_task j t s) found refl
      (λ flag _. (flag, λ h. ground (arith, h))) q
Step-Silent id (abort s j t found a w) inv q =
    insert-Silent id j t (record t { phase = ended }) s (abort_task j t s) found refl
      (λ flag _. (flag, λ h. ground (arith, h))) q

pub Run-Silent : {s u : Urbs} (id : ℕ) → Run s u → Inv s → Silent id s → Silent id u
Run-Silent id here inv q = q
Run-Silent id (next r st) inv q = Step-Silent id st (Run-Inv r inv) (Run-Silent id r inv q)

-- In every reachable state: a CMD_UNLINK of an entry whose task is still in its transfer sets
-- the task's flag, and in no later interleaving does the task come to write a RET_SUBMIT.
pub unlinked-Silent :
    (s u : Urbs) (seqnum unlink_seqnum : ℕ) (info : Inflight) (t : Task)
    → Run new s
    → Map.get unlink_seqnum s.inflight ≡ some info
    → Map.get info.task s.tasks ≡ some t
    → t.phase ≡ transferring
    → Run (unlink_inflight seqnum unlink_seqnum s) u
    → Silent info.task u
unlinked-Silent s u seqnum unlink_seqnum info t r entry at p later =
    Run-Silent info.task later (unlink_inflight-Inv s seqnum unlink_seqnum (Run-Inv r new-Inv)) (
      unfold unlink_inflight cancel_task in
      (
        stopped t,
        ground
            (arith, Map.get-insert info.task info.task (stopped t) s.tasks, Map.beq_refl info.task),
        refl,
        λ h. ground (arith, p, h),
      ))

-- A task may be over before the loop enters it into the table: from every reachable state in
-- which the loop accepts a CMD_SUBMIT there is a run after which the loop is back at the next
-- header, the RET_SUBMIT is sent behind what was sent before, and the table has an entry for the
-- number whose task is over.
pub stale_entry :
    (s t : Urbs) (seqnum ep_addr : ℕ)
    → Run new s
    → s.reader ≡ idle
    → spawn_submit seqnum ep_addr s ≡ some t
    → (u : Urbs) × (info : Inflight) × (v : Task) × Run s u
      × (u.reader ≡ idle)
      × (u.sent ≡ s.sent ++ (ret_submit seqnum ∷ []))
      × (Map.get seqnum u.inflight ≡ some info)
      × (Map.get info.task u.tasks ≡ some v)
      × (v.phase ≡ ended)
unfolding spawn_submit end_transfer write_reply finish_task insert_inflight
stale_entry s t seqnum ep_addr r at_header spawned = elim (Nat-cases s.permits) [
  | inl z ↦ absurd (ground arith)
  | inr (left, z) ↦
      let id : ℕ = s.next_task in
      let info : Inflight = record { task = id; ep_addr = ep_addr } in
      let sent_off : Task = record {
        seqnum = seqnum;
        phase = transferring;
        cancelled = false;
        aborted = false;
      } in
      let ready : Task = record sent_off { phase = replying } in
      let told : Task = record sent_off { phase = finishing } in
      let over : Task = record sent_off { phase = ended } in
      let t1 : Urbs = end_transfer id sent_off t in
      let t2 : Urbs = write_reply id ready t1 in
      let t3 : Urbs = finish_task id told t2 in
      let first : Map.get id t.tasks ≡ some sent_off =
        ground (arith, get-inserted id sent_off s.tasks) in
      let at_insert : t.reader ≡ inserting seqnum info = ground arith in
      (
        insert_inflight seqnum info t3,
        info,
        over,
        next
            (next
              (next
                (next (next here (submit s t seqnum ep_addr at_header spawned))
                  (transferred t id sent_off first refl))
                (reply t1 id ready (get-inserted id ready t.tasks) refl))
              (finish t2 id told (get-inserted id told t1.tasks) refl))
            (insert t3 seqnum info at_insert),
        refl,
        ground arith,
        get-inserted seqnum info t3.inflight,
        get-inserted id over t2.tasks,
        refl,
      )
]
