-- ===== src/Daemon/Policy.antt =====
-- The access policy of crates/usbipd/src/daemon.rs, and how crates/usbipd/src/main.rs chooses it.
use usbipd_darwin.Common.{
  ℕ, List, [], ◌∷◌, Bool, true, false, ◌&&◌, ◌||◌, ◌≡◌, ◌↔◌, ◌⊎◌, inl, inr, refl, arith, ◌==◌,
  nat_eq, filter,
}
use usbipd_darwin.Host.Devices.{UsbDevice}

-- The `HashSet` of pairs as a list: it is only asked for membership.
pub data AccessPolicy : Type 0 where
  deny_all allow_all : AccessPolicy
  allow_list : List (ℕ × ℕ) → AccessPolicy

unfoldable pub contains : List (ℕ × ℕ) → ℕ → ℕ → Bool
contains [] vid pid = false
contains ((v, p) ∷ set) vid pid = v == vid && p == pid || contains set vid pid

unfoldable pub permits : AccessPolicy → ℕ → ℕ → Bool
permits deny_all vid pid = false
permits allow_all vid pid = true
permits (allow_list set) vid pid = contains set vid pid

unfoldable pub filter_devices : AccessPolicy → List UsbDevice → List UsbDevice
filter_devices policy devices = filter (λ d. permits policy d.vendor_id d.product_id) devices

-- `Cmd::Daemon` of the command line: `--allow-all` and the `--allow` pairs.
unfoldable pub choose_policy : Bool → List (ℕ × ℕ) → AccessPolicy
choose_policy true allow = allow_all
choose_policy false [] = deny_all
choose_policy false (a ∷ as') = allow_list (a ∷ as')

-- The pair is one of the list.
abbrev pub Listed : ℕ → ℕ → List (ℕ × ℕ) → Type 0
Listed vid pid [] = ⊥
Listed vid pid ((v, p) ∷ set) = ((v ≡ vid) × (p ≡ pid)) ⊎ Listed vid pid set

contains_iff :
    (vid pid : ℕ) (set : List (ℕ × ℕ)) → (contains set vid pid ≡ true) ↔ Listed vid pid set
unfolding contains
contains_iff vid pid [] = ground arith
contains_iff vid pid ((v, p) ∷ set) = ground (arith, contains_iff vid pid set)

-- A device is exported exactly when the command line allows every device or lists its pair.
pub choose_policy-permits :
    (allow_every : Bool) (allow : List (ℕ × ℕ)) (vid pid : ℕ)
    → (permits (choose_policy allow_every allow) vid pid ≡ true)
      ↔ ((allow_every ≡ true) ⊎ Listed vid pid allow)
unfolding choose_policy permits
choose_policy-permits true allow vid pid = (λ _. inl refl, λ _. refl)
choose_policy-permits false [] vid pid = ground arith
choose_policy-permits false ((v, p) ∷ set) vid pid = (
  λ h. inr ((contains_iff vid pid ((v, p) ∷ set)).0 h),
  λ l. ground (arith, contains_iff vid pid ((v, p) ∷ set)),
)
