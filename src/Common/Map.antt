-- ===== src/Common/Map.antt =====
-- `HashMap` as an association list with at most one entry for a key that the operations look at.
use mathlib.Core.Path.{◌≡◌, refl}
use mathlib.Core.Bool.{Bool, true}
use mathlib.Core.Option.{Option, none, some}
use mathlib.Core.List.{List, [], ◌∷◌}
use native.Mathlib.Omega.{arith}
use usbipd_darwin.Common.Tests.{Eq, ◌==◌, if◌then◌else◌}

abbrev pub Map {ℓ κ} : Type ℓ → Type κ → Type (ℓ ⊔ κ)
Map K V = List (K × V)

module _ {ℓ κ} {K : Type ℓ} {V : Type κ} ⦃e : Eq K⦄ where
  unfoldable pub get : K → Map K V → Option V
  get k [] = none
  get k ((j, v) ∷ m) = let rest = get k m in if j == k then some v else rest

  unfoldable pub insert : K → V → Map K V → Map K V
  insert k v [] = (k, v) ∷ []
  insert k v ((j, w) ∷ m) = let rest = insert k v m in if j == k then (k, v) ∷ m else (j, w) ∷ rest

  unfoldable pub remove : K → Map K V → Map K V
  remove k [] = []
  remove k ((j, w) ∷ m) = let rest = remove k m in if j == k then rest else (j, w) ∷ rest

  -- `retain(|_, v| p(v))`
  unfoldable pub retain : (V → Bool) → Map K V → Map K V
  retain p [] = []
  retain p ((j, w) ∷ m) = let rest = retain p m in if p w then (j, w) ∷ rest else rest

  unfoldable pub values : Map K V → List V
  values [] = []
  values ((j, w) ∷ m) = w ∷ values m

  unfoldable pub keys : Map K V → List K
  keys [] = []
  keys ((j, w) ∷ m) = j ∷ keys m

  pub get-insert :
      (k j : K) (v : V) (m : Map K V) → get j (insert k v m) ≡ (if k == j then some v else get j m)
  unfolding get insert
  get-insert k j v [] = ground arith
  get-insert k j v ((i, w) ∷ m) =
      ground (arith, get-insert k j v m, e.same_key_iff i k, e.same_key_iff i j, e.same_key_iff k j)

  pub get-remove : (k j : K) (m : Map K V) → get j (remove k m) ≡ (if k == j then none else get j m)
  unfolding get remove
  get-remove k j [] = ground arith
  get-remove k j ((i, w) ∷ m) =
      ground (arith, get-remove k j m, e.same_key_iff i k, e.same_key_iff i j, e.same_key_iff k j)

pub beq_refl {ℓ} : {K : Type ℓ} ⦃e : Eq K⦄ (k : K) → (k == k) ≡ true
beq_refl ⦃e⦄ k = (e.same_key_iff k k).1 refl

pub ruleset map_laws = (get-insert, get-remove, beq_refl)
