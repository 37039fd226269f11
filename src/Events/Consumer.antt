-- ===== src/Events/Consumer.antt =====
-- What a subscriber knows: it keeps, for each busid, the last event.
use usbipd_darwin.Common.{
  ℕ, List, [], ◌∷◌, ◌++◌, Option, none, some, ◌≡◌, ◌≢◌, inl, inr, refl, ap, ◌∙◌, sym, arith, nat_eq,
  text_eq, text_beq_iff, ◌==◌, map, if◌then◌else◌, Option-cases, Bool-cases,
}
use mathlib.Core.List.{Memᴰ}
use usbipd_darwin.Common.Map
use usbipd_darwin.Common.Map.{Map}
use usbipd_darwin.Events.Lines.{AddedDevice, EventLine, added, removed}
use usbipd_darwin.Events.Hub.{Lists}

-- What is known of the busid after an event, and after a list of them.
abbrev pub learn : List ℕ → EventLine → Option AddedDevice → Option AddedDevice
learn k (added d) o = if d.busid == k then some d else o
learn k (removed d) o = if d.busid == k then none else o

unfoldable pub known : List ℕ → List EventLine → Option AddedDevice → Option AddedDevice
known k [] o = o
known k (ev ∷ evs) o = known k evs (learn k ev o)

pub known-append :
    (k : List ℕ) (a b : List EventLine) (o : Option AddedDevice)
    → known k (a ++ b) o ≡ known k b (known k a o)
unfolding known
known-append k [] b o = refl
known-append k (ev ∷ a) b o = known-append k a b (learn k ev o)

-- A listing of a snapshot tells a consumer the snapshot.
known-none :
    (k : List ℕ) (devs : List AddedDevice) (o : Option AddedDevice)
    → ((dev : AddedDevice) → Memᴰ dev devs → dev.busid ≢ k)
    → known k (map added devs) o ≡ o
unfolding known
known-none k [] o h = refl
known-none k (d ∷ devs) o h =
    let ne : d.busid ≢ k = h d (Memᴰ.head refl) in
    let skip : learn k (added d) o ≡ o = ground (arith, ne, text_beq_iff d.busid k) in
    ap (known k (map added devs)) skip ∙ known-none k devs o (λ e m. h e (Memᴰ.tail m))

known-same :
    (k : List ℕ) (d : AddedDevice) (devs : List AddedDevice)
    → ((dev : AddedDevice) → Memᴰ dev devs → dev.busid ≡ k → dev ≡ d)
    → known k (map added devs) (some d) ≡ some d
unfolding known
known-same k d [] h = refl
known-same k d (e ∷ devs) h =
    let still : learn k (added e) (some d) ≡ some d = elim (Bool-cases (e.busid == k)) [
      | inl at ↦ rw at (ap some (h e (Memᴰ.head refl) ((text_beq_iff e.busid k).0 at)))
      | inr off ↦ rw off refl
    ] in
    ap (known k (map added devs)) still ∙ known-same k d devs (λ x m. h x (Memᴰ.tail m))

known-member :
    (k : List ℕ) (d : AddedDevice) (devs : List AddedDevice) (o : Option AddedDevice)
    → Memᴰ d devs
    → d.busid ≡ k
    → ((dev : AddedDevice) → Memᴰ dev devs → dev.busid ≡ k → dev ≡ d)
    → known k (map added devs) o ≡ some d
unfolding known
known-member k d [] o m at h = elim m [ ]
known-member k d (e ∷ devs) o (Memᴰ.head p) at h =
    let same : e.busid ≡ k = ap (λ x. x.busid) (sym p) ∙ at in
    let first : learn k (added e) o ≡ some d =
      rw ((text_beq_iff e.busid k).1 same) (ap some (sym p)) in
    ap (known k (map added devs)) first ∙ known-same k d devs (λ x n. h x (Memᴰ.tail n))
known-member k d (e ∷ devs) o (Memᴰ.tail m) at h =
    known-member k d devs (learn k (added e) o) m at (λ x n. h x (Memᴰ.tail n))

-- The snapshot holds each device under its busid.
abbrev pub Keyed : Map (List ℕ) AddedDevice → Type 0
Keyed m = (k : List ℕ) (d : AddedDevice) → Map.get k m ≡ some d → d.busid ≡ k

pub known-Lists :
    (k : List ℕ) (devs : List AddedDevice) (m : Map (List ℕ) AddedDevice)
    → Keyed m
    → Lists devs m
    → known k (map added devs) none ≡ Map.get k m
known-Lists k devs m keyed lists = elim (Option-cases (Map.get k m)) [
  | inl nothing ↦
      known-none k devs none
        (λ d mem at. ground (arith, (lists d).0 mem, ap (λ j. Map.get j m) at, nothing))
      ∙ sym nothing
  | inr (d, found) ↦
      let at : d.busid ≡ k = keyed k d found in
      known-member k d devs none ((lists d).1 (ap (λ j. Map.get j m) at ∙ found)) at
        (λ e mem at_e. ground (arith, (lists e).0 mem, ap (λ j. Map.get j m) at_e, found))
      ∙ sym found
]
