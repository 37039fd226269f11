-- ===== src/Daemon/Urb/Answers/Exact.antt =====
-- How often a CMD_SUBMIT is answered.
use usbipd_darwin.Common.{Nat-cases, ℕ, ◌+◌, ◌≤◌, [], ◌∷◌, ◌≡◌, ◌≢◌, ◌⊎◌, inl, inr, arith, nat_eq}
use usbipd_darwin.Common.Map.{Map}
use usbipd_darwin.Daemon.Urb.Tasks.{Task, Urbs, new}
use usbipd_darwin.Daemon.Urb.Steps.{Run}
use usbipd_darwin.Daemon.Urb.Invariant.{live, total}
use usbipd_darwin.Daemon.Urb.Answers.{answers, submitted, unanswered, lost, Run-Balanced}

-- In every interleaving, no number has more RET_SUBMITs sent than CMD_SUBMITs accepted for it.
pub Run-answers : (q : ℕ) (s : Urbs) → Run new s → answers q s.sent ≤ total (submitted q) s.tasks
Run-answers q s r = omega (arith, Run-Balanced q r)

unanswered_le : (q : ℕ) (m : Map ℕ Task) → total (unanswered q) m ≤ total live m
unfolding total
unanswered_le q [] = omega arith
unanswered_le q ((id, t) ∷ m) = ground (arith, unanswered_le q m)

-- In every interleaving and for every number: the CMD_SUBMITs accepted for it are as many as the
-- RET_SUBMITs sent for it, the tasks that may still send one and the steps of the run that gave one up,
-- taken together. So where every task has ended, as many were sent as were accepted, less those given
-- up: by a task that found itself cancelled or was aborted, whose transfer could not be joined or whose
-- write failed.
pub Run-answers_exact :
    (q : ℕ) (s : Urbs) (r : Run new s)
    → (answers q s.sent + total (unanswered q) s.tasks + lost q r ≡ total (submitted q) s.tasks)
      × ((total live s.tasks ≢ 0) ⊎ (answers q s.sent + lost q r ≡ total (submitted q) s.tasks))
Run-answers_exact q s r =
    let b = Run-Balanced q r in
    (
      b,
      elim (Nat-cases (total live s.tasks)) [
        | inl over ↦ inr (omega (arith, b, over, unanswered_le q s.tasks))
        | inr (n, some_left) ↦ inl (λ over. absurd (omega (arith, over, some_left)))
      ],
    )
