-- ===== src/Host/Transfer/Search.antt =====
-- The search for an endpoint of crates/host-mac/src/lib.rs, whose order is that of a `HashMap`.
use mathlib.Core.List.{Memᴰ}
use usbipd_darwin.Common.{
  ℕ, List, [], ◌∷◌, Option, none, some, Result, err, ◌≡◌, refl, ap, sym, ◌∙◌, arith, ◌⊎◌, inl, inr,
  Option-cases,
}
use usbipd_darwin.Common.Map.{Map}
use usbipd_darwin.Host.Open.{EpKind, HostError, endpoint_not_found}
use usbipd_darwin.Host.Transfer.Calls.{EndpointDescriptor, InterfaceDescriptor}
use usbipd_darwin.Host.Transfer.Endpoints.{active_endpoint, kind_of, search_endpoint}

module _ (alt_map : Map ℕ ℕ) (settings : List InterfaceDescriptor) (ep_addr : ℕ) where
  abbrev active : ℕ → Option EndpointDescriptor
  active n = active_endpoint alt_map settings ep_addr n

  abbrev search : List ℕ → Result (ℕ × EpKind) HostError
  search ns = search_endpoint alt_map settings ep_addr ns

  -- No interface of the walk has the endpoint, or the result is that of one which has.
  search-cases :
      (ns : List ℕ)
      → (((n : ℕ) → Memᴰ n ns → active n ≡ none) × (search ns ≡ err (endpoint_not_found ep_addr)))
        ⊎ ((n : ℕ) × (e : EndpointDescriptor) × Memᴰ n ns
            × (active n ≡ some e)
            × (search ns ≡ kind_of ep_addr n e.transfer_type))
  unfolding search_endpoint
  search-cases [] = inl (λ n here. elim here [ ], refl)
  search-cases (n ∷ ns) = elim (Option-cases (active n)) [
    | inr (e, found) ↦ inr (n, e, Memᴰ.head refl, found, ground (arith, found))
    | inl missing ↦ elim (search-cases ns) [
      | inr (m, e, there, found, same) ↦
          inr (m, e, Memᴰ.tail there, found, ground (arith, missing, same))
      | inl (all, same) ↦ inl (only_missing n ns missing all, ground (arith, missing, same))
    ]
  ]
    where
      only_missing :
          (n : ℕ) (ns : List ℕ)
          → active n ≡ none
          → ((m : ℕ) → Memᴰ m ns → active m ≡ none)
          → (m : ℕ) → Memᴰ m (n ∷ ns)
          → active m ≡ none
      only_missing n ns missing all m (Memᴰ.head same) = ap active same ∙ missing
      only_missing n ns missing all m (Memᴰ.tail there) = all m there

  -- Where the active settings of no two interfaces of the device have the endpoint, the search finds
  -- the same in every order in which the interfaces are walked.
  pub search_endpoint-any_order :
      (ns ms : List ℕ)
      → ((n : ℕ) → Memᴰ n ns → Memᴰ n ms)
      → ((n : ℕ) → Memᴰ n ms → Memᴰ n ns)
      → ((n m : ℕ) (a b : EndpointDescriptor) → active n ≡ some a → active m ≡ some b → n ≡ m)
      → search ns ≡ search ms
  search_endpoint-any_order ns ms to from alone = elim (search-cases ns) [
    | inl (all, same) ↦ elim (search-cases ms) [
      | inl (_, other) ↦ same ∙ sym other
      | inr (n, e, there, found, _) ↦ absurd (ground (arith, all n (from n there), found))
    ]
    | inr (n, e, there, found, same) ↦ elim (search-cases ms) [
      | inl (all, _) ↦ absurd (ground (arith, all n (to n there), found))
      | inr (m, b, _, there_too, other) ↦
          let one : n ≡ m = alone n m e b found there_too in
          ground (arith, same, other, one, found, there_too)
    ]
  ]
