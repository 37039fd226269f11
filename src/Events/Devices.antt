-- ===== src/Events/Devices.antt =====
-- The publisher's map and the hub's snapshot hold the same devices.
use usbipd_darwin.Common.{
  ℕ, Bool, true, false, List, [], ◌∷◌, Option, none, some, ◌≡◌, ◌≢◌, ◌↔◌, refl, sym, ◌∙◌, inl, inr,
  arith, ◌==◌, nat_eq, text_eq, nat_beq_iff, text_beq_iff, if◌then◌else◌, Option-cases, Bool-cases,
}
use usbipd_darwin.Common.Map
use usbipd_darwin.Common.Map.{Map}
use usbipd_darwin.Host.Nusb.{DeviceInfo}
use usbipd_darwin.Host.Devices.{from_info}
use usbipd_darwin.Events.Lines.{RemovedDevice, identity, from_host}
use usbipd_darwin.Events.Publisher.{
  Publisher, Hotplug, connected, disconnected, idle, publish, publish_all, note_added, note_removed,
  publish_added, publish_removed,
}

abbrev busid_of : Option RemovedDevice → Option (List ℕ)
busid_of none = none
busid_of (some r) = some r.busid

-- The busid of the device with the id in the publisher's map, and whether the snapshot has a device.
unfoldable pub busid_at : ℕ → Publisher → Option (List ℕ)
busid_at id p = busid_of (Map.get id p.idmap.by_id)

unfoldable pub shows : List ℕ → Publisher → Bool
shows k p = elim (Map.get k p.snapshot) as (λ _. Bool) [ none ↦ false | some d ↦ true ]

pub record Tracks (p : Publisher) : Type 0 where
  pub shown : (id : ℕ) (k : List ℕ) → busid_at id p ≡ some k → shows k p ≡ true
  pub held : (k : List ℕ) → shows k p ≡ true → (id : ℕ) × (busid_at id p ≡ some k)
  pub apart : (i j : ℕ) (k : List ℕ) → busid_at i p ≡ some k → busid_at j p ≡ some k → i ≡ j

-- The busid of each device that is connected, after an event and after many.
unfoldable pub plug : Hotplug → (ℕ → Option (List ℕ)) → ℕ → Option (List ℕ)
plug (connected id info) now j = if id == j then some (from_info info).busid else now j
plug (disconnected id) now j = if id == j then none else now j

unfoldable pub plug_all : List Hotplug → (ℕ → Option (List ℕ)) → ℕ → Option (List ℕ)
plug_all [] now j = now j
plug_all (h ∷ hs) now j = plug_all hs (plug h now) j

abbrev pub nothing : ℕ → Option (List ℕ)
nothing j = none

-- A device connects at a busid that no other device holds, and it keeps its busid.
abbrev pub Fits : Hotplug → (ℕ → Option (List ℕ)) → Type 0
Fits (connected id info) now =
    ((j : ℕ) → now j ≡ some (from_info info).busid → j ≡ id)
    × ((k : List ℕ) → now id ≡ some k → k ≡ (from_info info).busid)
Fits (disconnected id) now = Unit {0}

abbrev pub AllFit : List Hotplug → (ℕ → Option (List ℕ)) → Type 0
AllFit [] now = Unit {0}
AllFit (h ∷ hs) now = Fits h now × AllFit hs (plug h now)

busid_at-connected :
    (id j : ℕ) (info : DeviceInfo) (p : Publisher)
    → busid_at j (publish (connected id info) p).0
      ≡ (if id == j then some (from_info info).busid else busid_at j p)
unfolding busid_at publish note_added publish_added identity from_host
busid_at-connected id j info p =
    ground (arith, Map.get-insert id j (identity (from_host (from_info info))) p.idmap.by_id)

shows-connected :
    (id : ℕ) (k : List ℕ) (info : DeviceInfo) (p : Publisher)
    → shows k (publish (connected id info) p).0
      ≡ (if (from_info info).busid == k then true else shows k p)
unfolding shows publish note_added publish_added identity from_host
shows-connected id k info p =
    ground (arith, Map.get-insert (from_info info).busid k (from_host (from_info info)) p.snapshot)

busid_at-disconnected :
    (id j : ℕ) (p : Publisher)
    → busid_at j (publish (disconnected id) p).0 ≡ (if id == j then none else busid_at j p)
unfolding busid_at publish note_removed publish_removed
busid_at-disconnected id j p = ground (arith, Map.get-remove id j p.idmap.by_id)

shows-disconnected :
    (id : ℕ) (k : List ℕ) (p : Publisher)
    → shows k (publish (disconnected id) p).0 ≡ elim (busid_at id p) as (λ _. Bool) [
      | none ↦ shows k p
      | some b ↦ if b == k then false else shows k p
    ]
unfolding busid_at shows publish note_removed publish_removed
shows-disconnected id k p = elim (Option-cases (Map.get id p.idmap.by_id)) [
  | inl unknown ↦ ground (arith, unknown)
  | inr (r, found) ↦ ground (arith, found, Map.get-remove r.busid k p.snapshot)
]

publish-Tracks :
    (h : Hotplug) (p : Publisher) → Fits h (λ j. busid_at j p) → Tracks p → Tracks (publish h p).0
publish-Tracks (connected id info) p (free, keeps) t =
    let b = (from_info info).busid in
    record {
      shown = λ j k at. ground (
        arith,
        at,
        busid_at-connected id j info p,
        shows-connected id k info p,
        t.shown j k,
        text_beq_iff b k,
      );
      held = λ k at. elim (Bool-cases (b == k)) [
        | inl same ↦ (
          id,
          ground (arith, same, busid_at-connected id id info p, text_beq_iff b k, Map.beq_refl id),
        )
        | inr other ↦
            let (j, at_j) = t.held k (ground (arith, at, other, shows-connected id k info p)) in
            (
              j,
              ground (
                arith,
                at_j,
                keeps k,
                other,
                busid_at-connected id j info p,
                nat_beq_iff id j,
                text_beq_iff b k,
              ),
            )
      ];
      apart = λ i j k at_i at_j. ground (
        arith,
        at_i,
        at_j,
        busid_at-connected id i info p,
        busid_at-connected id j info p,
        t.apart i j k,
        free i,
        free j,
        nat_beq_iff id i,
        nat_beq_iff id j,
      );
    }
publish-Tracks (disconnected id) p _ t = record {
  shown = λ j k at. elim (Option-cases (busid_at id p)) [
    | inl unknown ↦
        ground
          (arith, at, unknown, busid_at-disconnected id j p, shows-disconnected id k p, t.shown j k)
    | inr (b, found) ↦ ground (
      arith,
      at,
      found,
      busid_at-disconnected id j p,
      shows-disconnected id k p,
      t.shown j k,
      t.apart id j k,
      nat_beq_iff id j,
      text_beq_iff b k,
    )
  ];
  held = λ k at. elim (Option-cases (busid_at id p)) [
    | inl unknown ↦
        let (j, at_j) = t.held k (ground (arith, at, unknown, shows-disconnected id k p)) in
        (j, ground (arith, at_j, unknown, busid_at-disconnected id j p, nat_beq_iff id j))
    | inr (b, found) ↦
        let (j, at_j) = t.held k (ground (arith, at, found, shows-disconnected id k p)) in
        (
          j,
          ground (
            arith,
            at,
            at_j,
            found,
            busid_at-disconnected id j p,
            shows-disconnected id k p,
            nat_beq_iff id j,
            text_beq_iff b k,
          ),
        )
  ];
  apart = λ i j k at_i at_j. ground (
    arith,
    at_i,
    at_j,
    busid_at-disconnected id i p,
    busid_at-disconnected id j p,
    t.apart i j k,
  );
}

-- The publisher knows what is connected.
abbrev Knows : Publisher → (ℕ → Option (List ℕ)) → Type 0
Knows p now = (j : ℕ) → busid_at j p ≡ now j

Knows-Fits :
    (h : Hotplug) (p : Publisher) (now : ℕ → Option (List ℕ))
    → Knows p now
    → Fits h now
    → Fits h (λ j. busid_at j p)
Knows-Fits (connected id info) p now same (free, keeps) =
    (λ j at. free j (sym (same j) ∙ at), λ k at. keeps k (sym (same id) ∙ at))
Knows-Fits (disconnected id) p now same fits = tt

publish-Knows :
    (h : Hotplug) (p : Publisher) (now : ℕ → Option (List ℕ))
    → Knows p now
    → Knows (publish h p).0 (plug h now)
unfolding plug
publish-Knows (connected id info) p now same j =
    ground (arith, busid_at-connected id j info p, same j)
publish-Knows (disconnected id) p now same j = ground (arith, busid_at-disconnected id j p, same j)

publish_all-Tracks :
    (hs : List Hotplug) (p : Publisher) (now : ℕ → Option (List ℕ))
    → Knows p now
    → AllFit hs now
    → Tracks p
    → Tracks (publish_all hs p) × Knows (publish_all hs p) (plug_all hs now)
unfolding publish_all plug_all
publish_all-Tracks [] p now same _ t = (t, same)
publish_all-Tracks (h ∷ hs) p now same (fits, rest) t =
    publish_all-Tracks hs (publish h p).0 (plug h now) (publish-Knows h p now same) rest
      (publish-Tracks h p (Knows-Fits h p now same fits) t)

idle-Tracks : Tracks idle
unfolding idle busid_at shows Map.get
idle-Tracks = record {
  shown = λ id k at. absurd (ground arith);
  held = λ k at. absurd (ground arith);
  apart = λ i j k at_i at_j. absurd (ground arith);
}

idle-Knows : Knows idle nothing
unfolding idle busid_at Map.get
idle-Knows j = refl

-- From an idle publisher, where a device only connects at a busid that no other connected device has,
-- and keeps its busid: the snapshot shows a busid exactly when the events leave a device connected that
-- has it, which is one that connected there and was not disconnected since.
pub publish_all-shows :
    (hs : List Hotplug) (k : List ℕ)
    → AllFit hs nothing
    → (shows k (publish_all hs idle) ≡ true) ↔ ((id : ℕ) × (plug_all hs nothing id ≡ some k))
publish_all-shows hs k fit =
    let (t, knows) = publish_all-Tracks hs idle nothing idle-Knows fit idle-Tracks in
    (
      λ on. let (id, at) = t.held k on in (id, sym (knows id) ∙ at),
      λ h. t.shown h.0 k (knows h.0 ∙ h.1),
    )

-- A device that comes back under a new id before its old id is reported gone is lost from the
-- snapshot: the late removal takes the new device off, which is still connected.
pub late_removal :
    (p : Publisher) (old fresh : ℕ) (info : DeviceInfo)
    → busid_at old p ≡ some (from_info info).busid
    → fresh ≢ old
    → let q = publish_all (connected fresh info ∷ disconnected old ∷ []) p in
      (busid_at fresh q ≡ some (from_info info).busid) × (shows (from_info info).busid q ≡ false)
unfolding publish_all
late_removal p old fresh info at differ =
    let b = (from_info info).busid in
    let q = (publish (connected fresh info) p).0 in
    (
      ground (
        arith,
        busid_at-connected fresh fresh info p,
        busid_at-disconnected old fresh q,
        nat_beq_iff old fresh,
        Map.beq_refl fresh,
      ),
      ground (
        arith,
        at,
        busid_at-connected fresh old info p,
        shows-disconnected old b q,
        nat_beq_iff fresh old,
        Map.beq_refl b,
      ),
    )
