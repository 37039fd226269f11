-- ===== src/Common/Outcome.antt =====
-- Rust's `Result`, with `?` as the bind of a `do` block.
use mathlib.Core.Path.{◌≡◌, refl}
use mathlib.Core.Logic.{◌⊎◌, inl, inr}
use mathlib.Core.Option.{Option, none, some}

pub data Result {ℓ κ} (A : Type ℓ) (E : Type κ) : Type (ℓ ⊔ κ) where
  ok : A → Result A E
  err : E → Result A E

-- `?`
infixl 5 ◌>>=◌
abbrev pub ◌>>=◌ {ℓ κ ν} :
    {Out : Type ℓ} {In : Type κ} {E : Type ν} → Result In E → (In → Result Out E) → Result Out E
err failure >>= next = err failure
ok value >>= next = next value

-- `map_err`, and `context` of anyhow
abbrev pub map_err {ℓ κ ν} :
    {A : Type ℓ} {E : Type κ} {F : Type ν} → (E → F) → Result A E → Result A F
map_err f (ok a) = ok a
map_err f (err e) = err (f e)

-- `Option::unwrap_or`, `Option::ok_or`
abbrev pub unwrap_or {ℓ} : {A : Type ℓ} → Option A → A → A
unwrap_or none d = d
unwrap_or (some a) d = a

abbrev pub ok_or {ℓ κ} : {A : Type ℓ} {E : Type κ} → Option A → E → Result A E
ok_or none e = err e
ok_or (some a) e = ok a

pub Result-cases {ℓ κ} :
    {A : Type ℓ} {E : Type κ} (r : Result A E) → ((a : A) × (r ≡ ok a)) ⊎ ((e : E) × (r ≡ err e))
Result-cases (ok a) = inl (a, refl)
Result-cases (err e) = inr (e, refl)
