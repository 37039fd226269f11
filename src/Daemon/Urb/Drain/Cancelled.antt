-- ===== src/Daemon/Urb/Drain/Cancelled.antt =====
-- What `drain_inflight` of crates/usbipd/src/daemon.rs does to the tasks in the table, and what comes of
-- them.
use usbipd_darwin.Common.{
  ℕ, ◌*◌, ◌≤◌, List, [], ◌∷◌, some, true, ◌≡◌, ◌≢◌, ◌⊎◌, inl, inr, refl, ap, ◌∙◌, sym, subst, arith,
  ◌==◌, nat_eq, nat_beq_iff, if◌then◌else◌, Option-cases, Bool-cases,
}
use usbipd_darwin.Common.Map
use usbipd_darwin.Common.Map.{Map}
use usbipd_darwin.Daemon.Urb.Tasks.{
  max_inflight_urbs, Phase, transferring, replying, finishing, ended, Task, Inflight, idle, closed,
  unlinking, Urbs, new, cancel_task, cancel_all, drain_inflight, end_transfer, write_reply,
  skip_reply, finish_task, abort_task,
}
use usbipd_darwin.Daemon.Urb.Steps.{
  Waits, in_transfer, for_writer, Step, submit, insert, unlink, reply_unlink, disconnect,
  unlink_failed, transferred, reply, join_failed, write_failed, finish, abort, Run, here, next,
}
use usbipd_darwin.Daemon.Urb.Invariant.{
  Run-Inv, new-Inv, update_task-none, update_task-some, stopped, total, live,
}
use usbipd_darwin.Daemon.Urb.Races.{Silent, Run-Silent}
use usbipd_darwin.Daemon.Urb.Drain.Ends.{Next, steps, Run-closed, Run-drains}

-- The task with the number is one of which the predicate holds.
abbrev Held : (Task → Type 0) → ℕ → Urbs → Type 0
Held p id s = (t : Task) × (Map.get id s.tasks ≡ some t) × p t

insert-Held :
    (p : Task → Type 0) (id j : ℕ) (t u : Task) (s r : Urbs)
    → Map.get j s.tasks ≡ some t
    → r.tasks ≡ Map.insert j u s.tasks
    → (p t → p u)
    → Held p id s
    → Held p id r
insert-Held p id j t u s r found tasks kept (v, at, holds) = elim (Bool-cases (j == id)) [
  | inl same ↦
      let one : v ≡ t = ground (arith, nat_beq_iff j id) in
      (
        u,
        ground (arith, Map.get-insert j id u s.tasks, ap (Map.get id) tasks),
        kept (subst p one holds),
      )
  | inr other ↦ (v, ground (arith, Map.get-insert j id u s.tasks, ap (Map.get id) tasks), holds)
]

cancel_task-Held :
    (p : Task → Type 0) (id j : ℕ) (s : Urbs)
    → ((t : Task) → p t → p (stopped t))
    → Held p id s
    → Held p id (cancel_task j s)
unfolding cancel_task
cancel_task-Held p id j s kept (v, at, holds) = elim (Option-cases (Map.get j s.tasks)) [
  | inl missing ↦ (v, ap (Map.get id) (update_task-none j stopped s.tasks missing) ∙ at, holds)
  | inr (t, found) ↦
      insert-Held p id j t (stopped t) s (cancel_task j s) found
        (update_task-some j stopped s.tasks t found) (kept t) (v, at, holds)
]

-- A task in the phase, and one that is told to stop as well.
abbrev In : Phase → Task → Type 0
In p t = t.phase ≡ p

abbrev Marked : Phase → Task → Type 0
Marked p t = (t.cancelled ≡ true) × (t.aborted ≡ true) × (t.phase ≡ p)

cancel_task-Marked :
    (p : Phase) (id : ℕ) (s : Urbs) → Held (In p) id s → Held (Marked p) id (cancel_task id s)
unfolding cancel_task
cancel_task-Marked p id s (t, found, at) = (
  stopped t,
  ap (Map.get id) (update_task-some id stopped s.tasks t found)
      ∙ ground (arith, Map.get-insert id id (stopped t) s.tasks, Map.beq_refl id),
  (refl, refl, at),
)

cancel_all-Marked :
    (p : Phase) (id : ℕ) (infos : List Inflight) (s : Urbs)
    → Held (Marked p) id s
    → Held (Marked p) id (cancel_all infos s)
unfolding cancel_all
cancel_all-Marked p id [] s h = h
cancel_all-Marked p id (i ∷ is) s h =
    cancel_all-Marked p id is (cancel_task i.task s)
      (cancel_task-Held (Marked p) id i.task s (λ t (_, _, at). (refl, refl, at)) h)

-- Every entry of the table has its task told to stop.
cancel_all-values :
    (p : Phase) (seqnum : ℕ) (info : Inflight) (m : Map ℕ Inflight) (s : Urbs)
    → Map.get seqnum m ≡ some info
    → Held (In p) info.task s
    → Held (Marked p) info.task (cancel_all (Map.values m) s)
unfolding cancel_all Map.get Map.values
cancel_all-values p seqnum info [] s entry h = absurd (ground arith)
cancel_all-values p seqnum info ((j, i) ∷ m) s entry h = elim (Bool-cases (j == seqnum)) [
  | inl same ↦
      let one : i ≡ info = ground (arith, same) in
      let told = cancel_task-Marked p info.task s h in
      cancel_all-Marked p info.task (Map.values m) (cancel_task i.task s)
        (subst (λ k. Held (Marked p) info.task (cancel_task k.task s)) (sym one) told)
  | inr other ↦
      cancel_all-values p seqnum info m (cancel_task i.task s) (ground (arith, other))
        (cancel_task-Held (In p) info.task i.task s (λ t at. at) h)
]

cancel_all-reader : (infos : List Inflight) (s : Urbs) → (cancel_all infos s).reader ≡ s.reader
unfolding cancel_all cancel_task
cancel_all-reader [] s = refl
cancel_all-reader (i ∷ is) s = cancel_all-reader is (cancel_task i.task s)

-- Behind the loop a task that is told to stop stays so.
abbrev Stopped : Task → Type 0
Stopped t = (t.cancelled ≡ true) × (t.aborted ≡ true)

closed-Stopped :
    {s t : Urbs} (id : ℕ) → Step s t → s.reader ≡ closed → Held Stopped id s → Held Stopped id t
unfolding end_transfer write_reply skip_reply finish_task abort_task
closed-Stopped id (submit s t seqnum ep_addr at h) over q = absurd (ground (arith, at, over))
closed-Stopped id (insert s seqnum info at) over q = absurd (ground (arith, at, over))
closed-Stopped id (unlink s seqnum unlink_seqnum at) over q = absurd (ground (arith, at, over))
closed-Stopped id (reply_unlink s seqnum at) over q = absurd (ground (arith, at, over))
closed-Stopped id (disconnect s at) over q = absurd (ground (arith, at, over))
closed-Stopped id (unlink_failed s seqnum at) over q = absurd (ground (arith, at, over))
closed-Stopped id (transferred s j t found p) over q =
    insert-Held Stopped id j t (record t { phase = if t.cancelled then finishing else replying }) s
      (end_transfer j t s) found refl (λ h. h) q
closed-Stopped id (reply s j t found p) over q =
    insert-Held Stopped id j t (record t { phase = finishing }) s (write_reply j t s) found refl
      (λ h. h) q
closed-Stopped id (join_failed s j t found p) over q =
    insert-Held Stopped id j t (record t { phase = finishing }) s (skip_reply j t s) found refl
      (λ h. h) q
closed-Stopped id (write_failed s j t found p) over q =
    insert-Held Stopped id j t (record t { phase = finishing }) s (skip_reply j t s) found refl
      (λ h. h) q
closed-Stopped id (finish s j t found p) over q =
    insert-Held Stopped id j t (record t { phase = ended }) s (finish_task j t s) found refl
      (λ h. h) q
closed-Stopped id (abort s j t found a w) over q =
    insert-Held Stopped id j t (record t { phase = ended }) s (abort_task j t s) found refl (λ h. h)
      q

Run-Stopped :
    {s u : Urbs} (id : ℕ) → Run s u → s.reader ≡ closed → Held Stopped id s → Held Stopped id u
Run-Stopped id here over q = q
Run-Stopped id (next r st) over q =
    closed-Stopped id st (Run-closed r over).0 (Run-Stopped id r over q)

-- How the loop comes to its end.
abbrev pub AtEnd : Urbs → Type 0
AtEnd s = (s.reader ≡ idle) ⊎ ((seqnum : ℕ) × (s.reader ≡ unlinking seqnum))

drains : (s : Urbs) → AtEnd s → Step s (drain_inflight s)
drains s (inl at) = disconnect s at
drains s (inr (seqnum, at)) = unlink_failed s seqnum at

-- An aborted task is stopped where it waits.
stops :
    (u : Urbs) (id : ℕ) (v : Task) (p : Phase)
    → Map.get id u.tasks ≡ some v
    → v.aborted ≡ true
    → v.phase ≡ p
    → (v.phase ≡ finishing) ⊎ (v.phase ≡ ended) ⊎ Step u (abort_task id v u)
stops u id v finishing found a at = inl at
stops u id v ended found a at = inr (inl at)
stops u id v transferring found a at =
    inr (inr (abort u id v found a (subst Waits (sym at) in_transfer)))
stops u id v replying found a at =
    inr (inr (abort u id v found a (subst Waits (sym at) for_writer)))

transferring-cases :
    (t : Task) (p : Phase) → t.phase ≡ p → (t.phase ≢ transferring) ⊎ (t.phase ≡ transferring)
transferring-cases t transferring at = inr at
transferring-cases t replying at = inl (λ h. ground (arith, at, h))
transferring-cases t finishing at = inl (λ h. ground (arith, at, h))
transferring-cases t ended at = inl (λ h. ground (arith, at, h))

-- In every reachable state in which the loop can end, at a request or with an unlink's reply that
-- cannot be written, and for every entry of the table whose task is there: in every interleaving
-- behind that end the task's flag is set, and it is finishing, has ended or may be stopped at once
-- where it waits; if it was still in its transfer, it does not come to write a RET_SUBMIT; there
-- are at most three steps for each task that had not ended; and either some task can step, or every
-- task has ended and every permit is back.
pub drain_inflight-drains :
    (s u : Urbs) (seqnum : ℕ) (info : Inflight) (t : Task)
    → Run new s
    → AtEnd s
    → Map.get seqnum s.inflight ≡ some info
    → Map.get info.task s.tasks ≡ some t
    → (after : Run (drain_inflight s) u)
    → ((v : Task) × (Map.get info.task u.tasks ≡ some v)
        × (v.cancelled ≡ true)
        × ((v.phase ≡ finishing) ⊎ (v.phase ≡ ended) ⊎ Step u (abort_task info.task v u)))
      × ((t.phase ≢ transferring) ⊎ Silent info.task u)
      × (steps after ≤ 3 * total live (drain_inflight s).tasks)
      × (Next u ⊎ ((total live u.tasks ≡ 0) × (u.permits ≡ max_inflight_urbs)))
drain_inflight-drains s u seqnum info t before at entry found after =
    let whole = next before (drains s at) in
    let over : (drain_inflight s).reader ≡ closed =
      unfold drain_inflight in
      cancel_all-reader (Map.values s.inflight) (record s { reader = closed; inflight = [] }) in
    let (w, there, (flag, aborted, phase)) : Held (Marked t.phase) info.task (drain_inflight s) =
      unfold drain_inflight in
      cancel_all-values t.phase seqnum info s.inflight (record s { reader = closed; inflight = [] })
        entry (t, found, refl) in
    let (v, here_still, (flag_still, abort_still)) =
      Run-Stopped info.task after over (w, there, (flag, aborted)) in
    let (_, few, ends) = Run-drains whole after over in
    (
      (v, here_still, flag_still, stops u info.task v v.phase here_still abort_still refl),
      elim (transferring-cases t t.phase refl) [
        | inl other ↦ inl other
        | inr p ↦ inr (
            Run-Silent info.task after (Run-Inv whole new-Inv)
              (w, there, flag, λ h. ground (arith, p, phase, h)))
      ],
      few,
      ends,
    )
