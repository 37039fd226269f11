-- ===== src/Events/Invariant.antt =====
-- What holds of the hub and its subscribers, and what the publisher's steps do to it.
use usbipd_darwin.Common.{
  ℕ, ◌≤◌, List, [], ◌∷◌, Option, none, some, false, ◌≡◌, ◌⊎◌, inl, inr, refl, ap, ◌∙◌, sym, subst,
  arith, nat_eq, text_eq, text_beq_iff, ◌==◌, Option-cases, Bool-cases,
}
use usbipd_darwin.Common.Map
use usbipd_darwin.Common.Map.{Map}
use usbipd_darwin.Host.Devices.{from_info}
use usbipd_darwin.Events.Lines.{AddedDevice, EventLine, from_host}
use usbipd_darwin.Events.Publisher as Publisher
use usbipd_darwin.Events.Publisher.{
  Publisher, Hotplug, connected, disconnected, publish, note_added, note_removed, publish_added,
  publish_removed,
}
use usbipd_darwin.Events.Hub.{
  subscribed, serving, Subscriber, World, new, to_pending, note, enqueue, broadcast, send,
}
use usbipd_darwin.Events.Consumer.{known, known-append, Keyed}

-- What an event does to the snapshot and to what is known of a busid: it settles both, or neither
-- changes.
abbrev Settles : List ℕ → List EventLine → Publisher → Publisher → Type 0
Settles k evs p q =
    ((o : Option AddedDevice) → known k evs o ≡ Map.get k q.snapshot)
    ⊎ (((o : Option AddedDevice) → known k evs o ≡ o)
        × (Map.get k q.snapshot ≡ Map.get k p.snapshot))

publish-Settles :
    (k : List ℕ) (h : Hotplug) (p : Publisher)
    → Settles k (to_pending (publish h p).1) p (publish h p).0
unfolding publish publish_added known
publish-Settles k (connected id info) p =
    let d = from_host (from_info info) in
    elim (Bool-cases (d.busid == k)) [
      | inl at ↦ inl (λ o. ground (arith, at, Map.get-insert d.busid k d p.snapshot))
      | inr off ↦ inr (λ o. rw off refl, ground (arith, off, Map.get-insert d.busid k d p.snapshot))
    ]
publish-Settles k (disconnected id) p = elim (Option-cases (Map.get id p.idmap.by_id)) [
  | inl unknown ↦ inr (λ o. ground (arith, unknown), ground (arith, unknown))
  | inr (r, found) ↦ elim (Bool-cases (r.busid == k)) [
    | inl at ↦ inl (λ o. ground (arith, found, at, Map.get-remove r.busid k p.snapshot))
    | inr off ↦ inr (
      λ o. ground (arith, found, off),
      ground (arith, found, off, Map.get-remove r.busid k p.snapshot),
    )
  ]
]

publish-Keyed : (h : Hotplug) (p : Publisher) → Keyed p.snapshot → Keyed (publish h p).0.snapshot
unfolding publish publish_added publish_removed
publish-Keyed (connected id info) p keyed k d at =
    let e = from_host (from_info info) in
    ground (arith, at, Map.get-insert e.busid k e p.snapshot, keyed k d, text_beq_iff e.busid k)
publish-Keyed (disconnected id) p keyed k d at = elim (Option-cases (Map.get id p.idmap.by_id)) [
  | inl unknown ↦ ground (arith, at, unknown, keyed k d)
  | inr (r, found) ↦ ground (arith, at, found, Map.get-remove r.busid k p.snapshot, keyed k d)
]

-- What a subscriber will know of the busid when it has written all that is there for it now.
abbrev pub outlook : List ℕ → List EventLine → Subscriber → Option AddedDevice
outlook k pending sub =
    known k pending (known k sub.queue (known k sub.initial (known k sub.written none)))

pub record Good (k : List ℕ) (p : Publisher) (pending : List EventLine) (sub : Subscriber)
    : Type 0 where
  pub served :
      sub.stage ≡ serving → sub.lagged ≡ false → outlook k pending sub ≡ Map.get k p.snapshot
  pub waiting :
      sub.stage ≡ subscribed
      → sub.lagged ≡ false
      → (known k pending (known k sub.queue (Map.get k p.snapshot)) ≡ Map.get k p.snapshot)
        × (sub.written ≡ [])

pub record Inv (w : World) : Type 0 where
  pub keyed : Keyed w.publisher.snapshot
  pub settled :
      (k : List ℕ)
      → known k w.pending (Map.get k w.publisher.snapshot) ≡ Map.get k w.publisher.snapshot
  pub fresh : (id : ℕ) → w.next ≤ id → Map.get id w.subscribers ≡ none
  pub good :
      (id : ℕ) (sub : Subscriber)
      → Map.get id w.subscribers ≡ some sub
      → (k : List ℕ) → Good k w.publisher w.pending sub

pub new-Inv : Inv new
unfolding new Publisher.idle Map.get known
new-Inv = record {
  keyed = λ k d h. absurd (ground arith);
  settled = λ k. refl;
  fresh = λ id h. refl;
  good = λ id sub h k. absurd (ground arith);
}

note-Good :
    (k : List ℕ) (h : Hotplug) (w : World) (sub : Subscriber)
    → w.pending ≡ []
    → Good k w.publisher w.pending sub
    → Good k (note h w).publisher (note h w).pending sub
unfolding note known
note-Good k h w sub quiet good = elim (publish-Settles k h w.publisher) [
  | inl set ↦ record { served = λ s l. set _; waiting = λ s l. (set _, (good.waiting s l).1) }
  | inr (keep, same) ↦ record {
    served = λ s l.
        keep _
        ∙ (ap
              (λ evs.
                known k evs (known k sub.queue (known k sub.initial (known k sub.written none))))
              (sym quiet)
            ∙ good.served s l
            ∙ sym same);
    waiting = λ s l. (
      keep _
          ∙ (ap (known k sub.queue) same
              ∙ ap (λ evs. known k evs (known k sub.queue (Map.get k w.publisher.snapshot)))
                  (sym quiet)
              ∙ (good.waiting s l).0
              ∙ sym same),
      (good.waiting s l).1,
    );
  }
]

pub note-Inv : (h : Hotplug) (w : World) → w.pending ≡ [] → Inv w → Inv (note h w)
unfolding note
note-Inv h w quiet inv = record {
  keyed = publish-Keyed h w.publisher inv.keyed;
  settled =
      λ k. elim (publish-Settles k h w.publisher) [ inl set ↦ set _ | inr (keep, same) ↦ keep _ ];
  fresh = inv.fresh;
  good = λ id sub at k. note-Good k h w sub quiet (inv.good id sub at k);
}

get-broadcast :
    (id : ℕ) (evs : List EventLine) (m : Map ℕ Subscriber)
    → ((Map.get id m ≡ none) × (Map.get id (broadcast evs m) ≡ none))
      ⊎ ((sub : Subscriber) × (Map.get id m ≡ some sub)
          × (Map.get id (broadcast evs m) ≡ some (enqueue evs sub)))
unfolding broadcast Map.get
get-broadcast id evs [] = inl (refl, refl)
get-broadcast id evs ((j, sub) ∷ m) = elim (Bool-cases (j == id)) [
  | inl at ↦ inr (sub, rw at refl, rw at refl)
  | inr off ↦ rw off (get-broadcast id evs m)
]

send-Good :
    (k : List ℕ) (w : World) (sub : Subscriber)
    → Good k w.publisher w.pending sub
    → Good k (send w).publisher (send w).pending (enqueue w.pending sub)
unfolding send known
send-Good k w sub good = record {
  served = λ s l. known-append k sub.queue w.pending _ ∙ good.served s l;
  waiting =
      λ s l. (known-append k sub.queue w.pending _ ∙ (good.waiting s l).0, (good.waiting s l).1);
}

pub send-Inv : (w : World) → Inv w → Inv (send w)
unfolding send known
send-Inv w inv = record {
  keyed = inv.keyed;
  settled = λ k. refl;
  fresh = λ id h. elim (get-broadcast id w.pending w.subscribers) [
    | inl (before, behind) ↦ behind
    | inr (sub, before, behind) ↦ absurd (ground (arith, inv.fresh id h))
  ];
  good = λ id sub at k. elim (get-broadcast id w.pending w.subscribers) [
    | inl (before, behind) ↦ absurd (ground arith)
    | inr (old, before, behind) ↦
        let same : enqueue w.pending old ≡ sub = ground arith in
        subst (Good k w.publisher []) same (send-Good k w old (inv.good id old before k))
  ];
}
