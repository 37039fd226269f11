-- ===== src/Daemon/Attach/Exclusion.antt =====
-- Clients that attach and let go in any order.
use usbipd_darwin.Common.{
  ℕ, ◌+◌, ◌≤◌, List, [], ◌∷◌, ◌++◌, Option, none, some, ◌≡◌, ◌≢◌, ◌↔◌, refl, ap, arith, ◌==◌,
  text_eq, text_beq_iff, if◌then◌else◌,
}
use usbipd_darwin.Common.Map
use usbipd_darwin.Common.Map.{Map}
use usbipd_darwin.Daemon.Policy.{AccessPolicy}
use usbipd_darwin.Daemon.Attach.{DaemonState, new, try_attach, drop_guard}

-- The state and the busids of the guards that sessions hold.
pub record World : Type 0 where
  pub state : DaemonState
  pub guards : List (List ℕ)

pub data Step : World → World → Type 0 where
  attach :
      (w : World) (busid peer : List ℕ) (state : DaemonState)
      → try_attach busid peer w.state ≡ some state
      → Step w (record { state = state; guards = busid ∷ w.guards })
  refuse : (w : World) (busid peer : List ℕ) → try_attach busid peer w.state ≡ none → Step w w
  let_go :
      (w : World) (busid : List ℕ) (before behind : List (List ℕ))
      → w.guards ≡ before ++ (busid ∷ behind)
      → Step w (record { state = drop_guard busid w.state; guards = before ++ behind })

pub data Reach (policy : AccessPolicy) : World → Type 0 where
  init : Reach policy (record { state = new policy; guards = [] })
  next : {w v : World} → Reach policy w → Step w v → Reach policy v

-- How many guards hold a busid.
unfoldable pub held : List ℕ → List (List ℕ) → ℕ
held k [] = 0
held k (g ∷ gs) = (if g == k then 1 else 0) + held k gs

abbrev present : Option (List ℕ) → ℕ
present none = 0
present (some p) = 1

held-append : (k : List ℕ) (xs ys : List (List ℕ)) → held k (xs ++ ys) ≡ held k xs + held k ys
unfolding held
held-append k [] ys = omega arith
held-append k (x ∷ xs) ys = omega (arith, held-append k xs ys)

abbrev Inv : World → Type 0
Inv w = (k : List ℕ) → held k w.guards ≡ present (Map.get k w.state.attached)

Step-Inv : {w v : World} → Step w v → Inv w → Inv v
unfolding try_attach drop_guard held
Step-Inv (attach w busid peer state e) inv k =
    ground
      (arith, inv k, inv busid, Map.get-insert busid k peer w.state.attached, text_beq_iff busid k)
Step-Inv (refuse w busid peer e) inv k = inv k
Step-Inv (let_go w busid before behind e) inv k = ground (
  arith,
  inv k,
  inv busid,
  ap (held k) e,
  ap (held busid) e,
  held-append k before behind,
  held-append k before (busid ∷ behind),
  held-append busid before behind,
  held-append busid before (busid ∷ behind),
  Map.get-remove busid k w.state.attached,
  text_beq_iff busid k,
  Map.beq_refl busid,
)

Reach-Inv : {policy : AccessPolicy} {w : World} → Reach policy w → Inv w
unfolding new held Map.get
Reach-Inv init k = refl
Reach-Inv (next r s) k = Step-Inv s (λ j. Reach-Inv r j) k

-- However clients attach and let go, a busid is held by at most one guard, and it is attached in the
-- state exactly when one guard holds it.
pub exclusive :
    {policy : AccessPolicy} {w : World}
    → Reach policy w
    → (k : List ℕ)
    → (held k w.guards ≤ 1) × ((held k w.guards ≡ 1) ↔ (Map.get k w.state.attached ≢ none))
exclusive {w} r k = ground (arith, Reach-Inv r k)

-- Behind a claim any client is refused the device; behind its end the next one gets it; and no other
-- device is affected by either.
pub try_attach-drop_guard :
    (busid peer other k : List ℕ) (s t : DaemonState)
    → try_attach busid peer s ≡ some t
    → k ≢ busid
    → (try_attach busid other t ≡ none)
      × (try_attach busid other (drop_guard busid t) ≢ none)
      × (Map.get k t.attached ≡ Map.get k s.attached)
      × (Map.get k (drop_guard busid t).attached ≡ Map.get k s.attached)
unfolding try_attach drop_guard
try_attach-drop_guard busid peer other k s t e ne = (
  ground (arith, Map.get-insert busid busid peer s.attached, Map.beq_refl busid),
  ground (arith, Map.get-remove busid busid (Map.insert busid peer s.attached), Map.beq_refl busid),
  ground (arith, Map.get-insert busid k peer s.attached, text_beq_iff busid k),
  ground (
    arith,
    Map.get-insert busid k peer s.attached,
    Map.get-remove busid k (Map.insert busid peer s.attached),
    text_beq_iff busid k,
  ),
)
