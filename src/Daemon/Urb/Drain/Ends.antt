-- ===== src/Daemon/Urb/Drain/Ends.antt =====
-- The transfer tasks behind the end of the URB loop all end, and give their permits back.
use usbipd_darwin.Common.{
  ℕ, suc, ◌+◌, ◌*◌, ◌≤◌, ◌<◌, [], ◌∷◌, some, ◌≡◌, ◌⊎◌, inl, inr, refl, ap, arith, nat_eq,
  nat_beq_iff, if◌then◌else◌,
}
use usbipd_darwin.Common.Map
use usbipd_darwin.Common.Map.{Map}
use usbipd_darwin.Daemon.Urb.Tasks.{
  max_inflight_urbs, Phase, transferring, replying, finishing, ended, Task, closed, Urbs, new,
  end_transfer, write_reply, skip_reply, finish_task, abort_task,
}
use usbipd_darwin.Daemon.Urb.Steps.{
  Waits, in_transfer, for_writer, Step, submit, insert, unlink, reply_unlink, disconnect,
  unlink_failed, transferred, reply, join_failed, write_failed, finish, abort, Run, here, next,
}
use usbipd_darwin.Daemon.Urb.Invariant.{total, total-insert_old, live, Run-bounded}
use usbipd_darwin.Daemon.Urb.Drain.{Distinct, Run-Distinct}

-- The steps that a task has left.
abbrev pub left : Task → ℕ
left t = elim t.phase as (λ _. ℕ) [ transferring ↦ 3 | replying ↦ 2 | finishing ↦ 1 | ended ↦ 0 ]

left_le : (t : Task) (p : Phase) → t.phase ≡ p → left t ≤ 3 * live t
left_le t transferring h = rw h (omega arith)
left_le t replying h = rw h (omega arith)
left_le t finishing h = rw h (omega arith)
left_le t ended h = rw h (omega arith)

live-cases_one : (t : Task) (p : Phase) → t.phase ≡ p → (live t ≡ 0) ⊎ (live t ≡ 1)
live-cases_one t transferring h = inr (rw h refl)
live-cases_one t replying h = inr (rw h refl)
live-cases_one t finishing h = inr (rw h refl)
live-cases_one t ended h = inl (rw h refl)

left-live : (m : Map ℕ Task) → total left m ≤ 3 * total live m
unfolding total
left-live [] = omega arith
left-live ((id, t) ∷ m) = omega (arith, left-live m, left_le t t.phase refl)

-- A task that moves on.
less-left :
    (id : ℕ) (t u : Task) (m n : Map ℕ Task)
    → Map.get id m ≡ some t
    → n ≡ Map.insert id u m
    → left u < left t
    → total left n < total left m
less-left id t u m n found same less =
    omega (arith, less, total-insert_old left id u t m found, ap (total left) same)

Waits-left : (t : Task) (p : Phase) → Waits p → t.phase ≡ p → 0 < left t
Waits-left t transferring in_transfer h = rw h (omega arith)
Waits-left t replying for_writer h = rw h (omega arith)
Waits-left t finishing w h = elim w [ ]
Waits-left t ended w h = elim w [ ]

-- Behind the loop only tasks step, and each step leaves them fewer.
closed-Step :
    {s t : Urbs}
    → Step s t
    → s.reader ≡ closed
    → (t.reader ≡ closed) × (total left t.tasks < total left s.tasks)
unfolding end_transfer write_reply skip_reply finish_task abort_task
closed-Step (submit s t seqnum ep_addr at h) over = absurd (ground (arith, at, over))
closed-Step (insert s seqnum info at) over = absurd (ground (arith, at, over))
closed-Step (unlink s seqnum unlink_seqnum at) over = absurd (ground (arith, at, over))
closed-Step (reply_unlink s seqnum at) over = absurd (ground (arith, at, over))
closed-Step (disconnect s at) over = absurd (ground (arith, at, over))
closed-Step (unlink_failed s seqnum at) over = absurd (ground (arith, at, over))
closed-Step (transferred s id t found p) over = (
  over,
  less-left id t (record t { phase = if t.cancelled then finishing else replying }) s.tasks
      (Map.insert id (record t { phase = if t.cancelled then finishing else replying }) s.tasks)
      found refl (ground (arith, p)),
)
closed-Step (reply s id t found p) over = (
  over,
  less-left id t (record t { phase = finishing }) s.tasks
      (Map.insert id (record t { phase = finishing }) s.tasks) found refl (ground (arith, p)),
)
closed-Step (join_failed s id t found p) over = (
  over,
  less-left id t (record t { phase = finishing }) s.tasks
      (Map.insert id (record t { phase = finishing }) s.tasks) found refl (ground (arith, p)),
)
closed-Step (write_failed s id t found p) over = (
  over,
  less-left id t (record t { phase = finishing }) s.tasks
      (Map.insert id (record t { phase = finishing }) s.tasks) found refl (ground (arith, p)),
)
closed-Step (finish s id t found p) over = (
  over,
  less-left id t (record t { phase = ended }) s.tasks
      (Map.insert id (record t { phase = ended }) s.tasks) found refl (ground (arith, p)),
)
closed-Step (abort s id t found a w) over = (
  over,
  less-left id t (record t { phase = ended }) s.tasks
      (Map.insert id (record t { phase = ended }) s.tasks) found refl (Waits-left t t.phase w refl),
)

-- A task that has not ended is there, or all have ended.
live-cases :
    (m : Map ℕ Task)
    → Distinct m
    → (total live m ≡ 0) ⊎ ((id : ℕ) × (t : Task) × (Map.get id m ≡ some t) × (live t ≡ 1))
unfolding total Distinct Map.get
live-cases [] d = inl refl
live-cases ((j, t) ∷ m) (first, d) = elim (live-cases m d) [
  | inr (id, u, found, runs) ↦ inr (id, u, ground (arith, found, first, nat_beq_iff j id), runs)
  | inl rest ↦ elim (live-cases_one t t.phase refl) [
    | inl over ↦ inl (omega (arith, over, rest))
    | inr runs ↦ inr (j, t, ground (arith, nat_beq_iff j j), runs)
  ]
]

abbrev pub Next : Urbs → Type 0
Next s = (t : Urbs) × Step s t

live-Step :
    (s : Urbs) (id : ℕ) (t : Task) (p : Phase)
    → Map.get id s.tasks ≡ some t
    → t.phase ≡ p
    → live t ≡ 1
    → Next s
live-Step s id t transferring found at runs = (end_transfer id t s, transferred s id t found at)
live-Step s id t replying found at runs = (write_reply id t s, reply s id t found at)
live-Step s id t finishing found at runs = (finish_task id t s, finish s id t found at)
live-Step s id t ended found at runs = absurd (ground (arith, at, runs))

abbrev pub steps : {s t : Urbs} → Run s t → ℕ
steps here = 0
steps (next r st) = suc (steps r)

pub Run-closed :
    {s t : Urbs} (r : Run s t)
    → s.reader ≡ closed
    → (t.reader ≡ closed) × (steps r + total left t.tasks ≤ total left s.tasks)
Run-closed here over = (over, omega arith)
Run-closed (next r st) over =
    let (still, few) = Run-closed r over in
    let (now, less) = closed-Step st still in (now, omega (arith, few, less))

Run-append : {s t u : Urbs} → Run s t → Run t u → Run s u
Run-append a here = a
Run-append a (next b st) = next (Run-append a b) st

-- In every interleaving from the start, once the loop is past its end, it stays there: every further
-- run has at most three steps for each task that had not ended, and where it stands either some task
-- can step, or every task has ended and every permit is back.
pub Run-drains :
    {s t : Urbs} (before : Run new s) (after : Run s t)
    → s.reader ≡ closed
    → (t.reader ≡ closed)
      × (steps after ≤ 3 * total live s.tasks)
      × (Next t ⊎ ((total live t.tasks ≡ 0) × (t.permits ≡ max_inflight_urbs)))
Run-drains {s} {t} before after over =
    let (still, few) = Run-closed after over in
    let whole = Run-append before after in
    (
      still,
      omega (arith, few, left-live s.tasks),
      elim (live-cases t.tasks (Run-Distinct whole)) [
        | inl none_left ↦ inr (none_left, omega (arith, none_left, (Run-bounded t 0 0 whole).0))
        | inr (id, u, found, runs) ↦ inl (live-Step t id u u.phase found refl runs)
      ],
    )
