-- ===== src/Events/Consistent.antt =====
-- Every subscriber that has not lagged is brought to the hub's snapshot by what is still to come.
use usbipd_darwin.Common.{
  ℕ, ◌+◌, ◌≤◌, ◌<◌, List, [], ◌∷◌, ◌++◌, none, some, true, false, ◌≡◌, ◌≢◌, ◌⊎◌, inl, inr, refl, ap,
  ◌∙◌, sym, subst, arith, nat_eq, text_eq, nat_beq_iff, ◌==◌, map, Bool-cases,
}
use usbipd_darwin.Common.Map
use usbipd_darwin.Common.Map.{Map}
use usbipd_darwin.Events.Lines.{added}
use usbipd_darwin.Events.Hub.{
  subscribed, serving, closed, Subscriber, Acceptor, accepting, snapshotting, World, new, subscribe,
  snapshot_added, write_initial, write_received, lag, hang_up, shutdown, Step, hotplug, sent,
  accept, snapshot, stop, initial_line, received_line, lost, ended, Run, here, then_step,
}
use usbipd_darwin.Events.Consumer.{known, known-append, known-Lists}
use usbipd_darwin.Events.Invariant.{Good, Inv, new-Inv, note-Inv, send-Inv}

-- A step of one subscriber, or of the accept loop: the others keep what they had.
change-Inv :
    (w : World) (a : Acceptor) (id : ℕ) (sub : Subscriber) (n : ℕ)
    → Inv w
    → w.next ≤ n
    → ((n ≡ w.next) × (Map.get id w.subscribers ≢ none)) ⊎ (id < n)
    → ((k : List ℕ) → Good k w.publisher w.pending sub)
    → Inv (record w { acceptor = a; subscribers = Map.insert id sub w.subscribers; next = n })
change-Inv w a id sub n inv newer old good = record {
  keyed = inv.keyed;
  settled = inv.settled;
  fresh = λ j h.
      ground
        (arith, inv.fresh j, inv.fresh id, Map.get-insert id j sub w.subscribers, nat_beq_iff id j);
  good = λ j t at k. elim (Bool-cases (id == j)) [
    | inl same ↦
        let one : sub ≡ t = ground (arith, at, same, Map.get-insert id j sub w.subscribers) in
        subst (Good k w.publisher w.pending) one (good k)
    | inr other ↦ inv.good j t (ground (arith, at, other, Map.get-insert id j sub w.subscribers)) k
  ];
}

pub Step-Inv : {w v : World} → Step w v → Inv w → Inv v
unfolding subscribe snapshot_added write_initial write_received lag hang_up shutdown known
Step-Inv (hotplug w h quiet) inv = note-Inv h w quiet inv
Step-Inv (sent w _) inv = send-Inv w inv
Step-Inv (accept w _) inv =
    change-Inv w (snapshotting w.next) w.next
      (record { stage = subscribed; initial = []; queue = []; written = []; lagged = false })
      (w.next + 1) inv (omega arith) (inr (omega arith))
      (λ k. record {
        served = λ s l. absurd (ground arith);
        waiting = λ s l. (inv.settled k, refl);
      })
Step-Inv (snapshot w id sub devs _ at stage lists) inv =
    change-Inv w accepting id (record sub { stage = serving; initial = map added devs }) w.next inv
      (omega arith) (inl (refl, λ h. ground (arith, at, h)))
      (λ k. record {
        served = λ s l.
            let (settled, nothing) = (inv.good id sub at k).waiting stage l in
            ap
              (λ ws.
                known k w.pending (known k sub.queue (known k (map added devs) (known k ws none))))
              nothing
            ∙ ap (λ o. known k w.pending (known k sub.queue o))
                (known-Lists k devs w.publisher.snapshot inv.keyed lists)
            ∙ settled;
        waiting = λ s l. absurd (ground arith);
      })
Step-Inv (stop w _) inv = record {
  keyed = inv.keyed;
  settled = inv.settled;
  fresh = inv.fresh;
  good = inv.good;
}
Step-Inv (initial_line w id sub ev rest at stage next_line) inv =
    change-Inv w w.acceptor id (record sub { initial = rest; written = sub.written ++ (ev ∷ []) })
      w.next inv (omega arith) (inl (refl, λ h. ground (arith, at, h)))
      (λ k. record {
        served = λ s l.
            ap (λ o. known k w.pending (known k sub.queue (known k rest o)))
              (known-append k sub.written (ev ∷ []) none)
            ∙ ap
                (λ evs.
                  known k w.pending (known k sub.queue (known k evs (known k sub.written none))))
                (sym next_line)
            ∙ (inv.good id sub at k).served stage l;
        waiting = λ s l. absurd (ground arith);
      })
Step-Inv (received_line w id sub ev rest at stage shown next_line) inv =
    change-Inv w w.acceptor id (record sub { queue = rest; written = sub.written ++ (ev ∷ []) })
      w.next inv (omega arith) (inl (refl, λ h. ground (arith, at, h)))
      (λ k. record {
        served = λ s l.
            ap
              (λ evs.
                known k w.pending
                  (known k rest (known k evs (known k (sub.written ++ (ev ∷ [])) none))))
              shown
            ∙ ap (λ o. known k w.pending (known k rest o))
                (known-append k sub.written (ev ∷ []) none)
            ∙ ap (λ evs. known k w.pending (known k evs (known k sub.written none))) (sym next_line)
            ∙ ap
                (λ evs.
                  known k w.pending (known k sub.queue (known k evs (known k sub.written none))))
                (sym shown)
            ∙ (inv.good id sub at k).served stage l;
        waiting = λ s l. absurd (ground arith);
      })
Step-Inv (lost w id sub ev rest at next_line) inv =
    change-Inv w w.acceptor id (record sub { queue = rest; lagged = true }) w.next inv (omega arith)
      (inl (refl, λ h. ground (arith, at, h)))
      (λ k. record {
        served = λ s l. absurd (ground arith);
        waiting = λ s l. absurd (ground arith);
      })
Step-Inv (ended w id sub at stage) inv =
    change-Inv w w.acceptor id (record sub { stage = closed }) w.next inv (omega arith)
      (inl (refl, λ h. ground (arith, at, h)))
      (λ k. record {
        served = λ s l. absurd (ground arith);
        waiting = λ s l. absurd (ground arith);
      })

pub Run-Inv : {w v : World} → Run w v → Inv w → Inv v
Run-Inv here inv = inv
Run-Inv (then_step r st) inv = Step-Inv st (Run-Inv r inv)

-- In every interleaving: a subscriber that is being served and has not lagged knows, once it has
-- written what is there for it and the publisher has nothing to send, exactly the hub's devices; in
-- between, what is still to be written leads there.
pub subscriber-consistent :
    (w : World) (id : ℕ) (sub : Subscriber) (k : List ℕ)
    → Run new w
    → Map.get id w.subscribers ≡ some sub
    → sub.stage ≡ serving
    → sub.lagged ≡ false
    → (known k (sub.written ++ (sub.initial ++ (sub.queue ++ w.pending))) none
        ≡ Map.get k w.publisher.snapshot)
subscriber-consistent w id sub k r at stage whole =
    known-append k sub.written _ none
    ∙ known-append k sub.initial _ _
    ∙ known-append k sub.queue _ _
    ∙ ((Run-Inv r new-Inv).good id sub at k).served stage whole
