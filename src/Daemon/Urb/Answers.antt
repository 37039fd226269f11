-- ===== src/Daemon/Urb/Answers.antt =====
-- The CMD_SUBMITs of a run of the URB loop, and what becomes of each.
pub mod Exact
use usbipd_darwin.Common.{
  Nat-cases, ℕ, ◌+◌, ◌≤◌, List, [], ◌∷◌, ◌++◌, some, false, ◌≡◌, ◌≢◌, ◌⊎◌, subst, inl, inr, refl,
  ap, ◌∙◌, arith, ◌==◌, nat_eq, if◌then◌else◌, Option-cases,
}
use usbipd_darwin.Common.Map
use usbipd_darwin.Common.Map.{Map}
use usbipd_darwin.Daemon.Urb.Tasks.{
  Phase, transferring, replying, finishing, ended, Task, Inflight, Message, ret_submit, ret_unlink,
  closed, Urbs, new, spawn_submit, insert_inflight, cancel_task, unlink_inflight, write_unlink,
  cancel_all, drain_inflight, end_transfer, write_reply, skip_reply, finish_task, abort_task,
}
use usbipd_darwin.Daemon.Urb.Steps.{
  Waits, in_transfer, for_writer, Step, submit, insert, unlink, reply_unlink, disconnect,
  unlink_failed, transferred, reply, join_failed, write_failed, finish, abort, Run, here, next,
}
use usbipd_darwin.Daemon.Urb.Invariant.{
  live, total, total-insert_new, total-insert_old, Inv, Run-Inv, update_task-none, update_task-some,
  stopped, new-Inv,
}

-- The RET_SUBMITs for a number among the messages.
unfoldable pub answers : ℕ → List Message → ℕ
answers q [] = 0
answers q (ret_submit r ∷ ms) = (if r == q then 1 else 0) + answers q ms
answers q (ret_unlink r ∷ ms) = answers q ms

answers-append : (q : ℕ) (a b : List Message) → answers q (a ++ b) ≡ answers q a + answers q b
unfolding answers
answers-append q [] b = omega arith
answers-append q (ret_submit r ∷ a) b = omega (arith, answers-append q a b)
answers-append q (ret_unlink r ∷ a) b = answers-append q a b

module _ (q : ℕ) where
  -- A task for a CMD_SUBMIT with the number; one that may still answer it.
  abbrev pub submitted : Task → ℕ
  submitted t = if t.seqnum == q then 1 else 0

  abbrev pub may_answer : Phase → ℕ
  may_answer transferring = 1
  may_answer replying = 1
  may_answer finishing = 0
  may_answer ended = 0

  abbrev pub unanswered : Task → ℕ
  unanswered t = if t.seqnum == q then may_answer t.phase else 0

  -- With `n` submits that will not be answered any more.
  abbrev pub Balanced : ℕ → Urbs → Type 0
  Balanced n s = answers q s.sent + total unanswered s.tasks + n ≡ total submitted s.tasks

  change-Balanced :
      (n k : ℕ) (s : Urbs) (id : ℕ) (t u : Task) (r : Urbs)
      → Map.get id s.tasks ≡ some t
      → r.tasks ≡ Map.insert id u s.tasks
      → answers q r.sent + unanswered u + k ≡ answers q s.sent + unanswered t
      → u.seqnum ≡ t.seqnum
      → Balanced n s
      → Balanced (n + k) r
  change-Balanced n k s id t u r found tasks less same b = omega (
    arith,
    b,
    less,
    total-insert_old unanswered id u t s.tasks found,
    total-insert_old submitted id u t s.tasks found,
    ap (total unanswered) tasks,
    ap (total submitted) tasks,
    ap {B = ℕ} (λ n. if n == q then 1 else 0) same,
  )

  same-Balanced :
      (n : ℕ) (s r : Urbs)
      → r.tasks ≡ s.tasks
      → answers q r.sent ≡ answers q s.sent
      → Balanced n s
      → Balanced n r
  same-Balanced n s r tasks sent b =
      omega (arith, b, sent, ap (total unanswered) tasks, ap (total submitted) tasks)

  cancel_task-Balanced : (n id : ℕ) (s : Urbs) → Balanced n s → Balanced n (cancel_task id s)
  unfolding cancel_task
  cancel_task-Balanced n id s b = elim (Option-cases (Map.get id s.tasks)) [
    | inl missing ↦
        same-Balanced n s (cancel_task id s) (update_task-none id stopped s.tasks missing) refl b
    | inr (t, found) ↦
        subst (λ k. Balanced k (cancel_task id s)) (omega arith)
          (change-Balanced n 0 s id t (stopped t) (cancel_task id s) found
            (update_task-some id stopped s.tasks t found) (omega arith) refl b)
  ]

  cancel_all-Balanced :
      (n : ℕ) (infos : List Inflight) (s : Urbs) → Balanced n s → Balanced n (cancel_all infos s)
  unfolding cancel_all
  cancel_all-Balanced n [] s b = b
  cancel_all-Balanced n (i ∷ is) s b =
      cancel_all-Balanced n is (cancel_task i.task s) (cancel_task-Balanced n i.task s b)

  drain_inflight-Balanced : (n : ℕ) (s : Urbs) → Balanced n s → Balanced n (drain_inflight s)
  unfolding drain_inflight
  drain_inflight-Balanced n s b =
      cancel_all-Balanced n (Map.values s.inflight) (record s { reader = closed; inflight = [] }) b

  spawn_submit-Balanced :
      (n : ℕ) (s t : Urbs) (seqnum ep_addr : ℕ)
      → spawn_submit seqnum ep_addr s ≡ some t
      → Inv s
      → Balanced n s
      → Balanced n t
  unfolding spawn_submit
  spawn_submit-Balanced n s t seqnum ep_addr h inv b = elim (Nat-cases s.permits) [
    | inl z ↦ absurd (ground arith)
    | inr (left, z) ↦
        let task : Task = record {
          seqnum = seqnum;
          phase = transferring;
          cancelled = false;
          aborted = false;
        } in
        let same : t.tasks ≡ Map.insert s.next_task task s.tasks = ground arith in
        let sent : t.sent ≡ s.sent = ground arith in
        omega (
          arith,
          b,
          total-insert_new unanswered s.next_task task s.tasks
              (inv.fresh s.next_task (omega arith)),
          total-insert_new submitted s.next_task task s.tasks (inv.fresh s.next_task (omega arith)),
          ap (total unanswered) same,
          ap (total submitted) same,
          ap (answers q) sent,
        )
  ]

  unlink_inflight-Balanced :
      (n : ℕ) (s : Urbs) (seqnum unlink_seqnum : ℕ)
      → Balanced n s
      → Balanced n (unlink_inflight seqnum unlink_seqnum s)
  unfolding unlink_inflight
  unlink_inflight-Balanced n s seqnum unlink_seqnum b =
      elim (Option-cases (Map.get unlink_seqnum s.inflight)) [
        | inl h ↦
            same-Balanced n s (unlink_inflight seqnum unlink_seqnum s) (ground arith) (ground arith)
              b
        | inr (info, h) ↦
            same-Balanced n (cancel_task info.task s) (unlink_inflight seqnum unlink_seqnum s)
              (unfold cancel_task in ground arith) (unfold cancel_task in ground arith)
              (cancel_task-Balanced n info.task s b)
      ]

  -- The replies that a step gives up: the task finds its flag set, its transfer cannot be joined, its
  -- write fails, or it is aborted.
  lost_step : {s t : Urbs} → Step s t → ℕ
  lost_step (transferred s id t found p) = if t.cancelled then submitted t else 0
  lost_step (join_failed s id t found p) = submitted t
  lost_step (write_failed s id t found p) = submitted t
  lost_step (abort s id t found a w) = submitted t
  lost_step (submit _ _ _ _ _ _) = 0
  lost_step (insert _ _ _ _) = 0
  lost_step (unlink _ _ _ _) = 0
  lost_step (reply_unlink _ _ _) = 0
  lost_step (disconnect _ _) = 0
  lost_step (unlink_failed _ _ _) = 0
  lost_step (reply _ _ _ _ _) = 0
  lost_step (finish _ _ _ _ _) = 0

  unfoldable pub lost : {s t : Urbs} → Run s t → ℕ
  unfolding lost_step
  lost here = 0
  lost (next r st) = lost r + lost_step st

  same_count : (n : ℕ) (r : Urbs) → Balanced n r → Balanced (n + 0) r
  same_count n r b = omega (arith, b)

  Waits-unanswered : (t : Task) (p : Phase) → Waits p → t.phase ≡ p → unanswered t ≡ submitted t
  Waits-unanswered t transferring in_transfer h = rw h refl
  Waits-unanswered t replying for_writer h = rw h refl
  Waits-unanswered t finishing w h = elim w [ ]
  Waits-unanswered t ended w h = elim w [ ]

  Step-Balanced :
      (n : ℕ) {s t : Urbs} (st : Step s t) → Inv s → Balanced n s → Balanced (n + lost_step st) t
  unfolding insert_inflight write_unlink end_transfer write_reply skip_reply finish_task abort_task
      answers lost_step
  Step-Balanced n (submit s t seqnum ep_addr _ h) inv b =
      same_count n t (spawn_submit-Balanced n s t seqnum ep_addr h inv b)
  Step-Balanced n (insert s seqnum info _) inv b = same_count n (insert_inflight seqnum info s) b
  Step-Balanced n (unlink s seqnum unlink_seqnum _) inv b =
      same_count n (unlink_inflight seqnum unlink_seqnum s)
        (unlink_inflight-Balanced n s seqnum unlink_seqnum b)
  Step-Balanced n (reply_unlink s seqnum _) inv b = same_count n (write_unlink seqnum s) (
      same-Balanced n s (write_unlink seqnum s) refl
        (answers-append q s.sent (ret_unlink seqnum ∷ []) ∙ omega arith) b)
  Step-Balanced n (disconnect s _) inv b =
      same_count n (drain_inflight s) (drain_inflight-Balanced n s b)
  Step-Balanced n (unlink_failed s seqnum _) inv b =
      same_count n (drain_inflight s) (drain_inflight-Balanced n s b)
  Step-Balanced n (transferred s id t found p) inv b =
      change-Balanced n (if t.cancelled then submitted t else 0) s id t
        (record t { phase = if t.cancelled then finishing else replying }) (end_transfer id t s)
        found refl (ground (arith, p)) refl b
  Step-Balanced n (reply s id t found p) inv b =
      change-Balanced n 0 s id t (record t { phase = finishing }) (write_reply id t s) found refl
        (ground (arith, p, answers-append q s.sent (ret_submit t.seqnum ∷ []))) refl b
  Step-Balanced n (join_failed s id t found p) inv b =
      change-Balanced n (submitted t) s id t (record t { phase = finishing }) (skip_reply id t s)
        found refl (ground (arith, p)) refl b
  Step-Balanced n (write_failed s id t found p) inv b =
      change-Balanced n (submitted t) s id t (record t { phase = finishing }) (skip_reply id t s)
        found refl (ground (arith, p)) refl b
  Step-Balanced n (finish s id t found p) inv b =
      change-Balanced n 0 s id t (record t { phase = ended }) (finish_task id t s) found refl
        (ground (arith, p)) refl b
  Step-Balanced n (abort s id t found a w) inv b =
      change-Balanced n (submitted t) s id t (record t { phase = ended }) (abort_task id t s) found
        refl (ground (arith, Waits-unanswered t t.phase w refl)) refl b

  pub Run-Balanced : {s : Urbs} (r : Run new s) → Balanced (lost r) s
  unfolding new total answers lost
  Run-Balanced here = omega arith
  Run-Balanced (next r st) = Step-Balanced (lost r) st (Run-Inv r new-Inv) (Run-Balanced r)
