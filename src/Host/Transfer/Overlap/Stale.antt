-- ===== src/Host/Transfer/Overlap/Stale.antt =====
-- A SET_CONFIGURATION beside a transfer, of crates/host-mac/src/lib.rs.
use usbipd_darwin.Common.{ℕ, List, [], ◌∷◌, none, true, false, ok, ◌≡◌, arith, nat_eq}
use usbipd_darwin.Common.Map
use usbipd_darwin.Common.Map.{Map}
use usbipd_darwin.Host.Open.{EpKind}
use usbipd_darwin.Host.Transfer.Calls.{
  Call, open_endpoint, clear_halt, set_configuration, Answers, Use, ask,
}
use usbipd_darwin.Host.Transfer.Endpoints.{is_claimed}
use usbipd_darwin.Host.Transfer.Overlap.{looking, clears_endpoints, ready, overlap}

-- A transfer on an endpoint that is not open, of an interface that is claimed, and a SET_CONFIGURATION
-- while the endpoint is being opened, where nusb carries out every call: both end well, and the
-- cache keeps the endpoint, opened in the old configuration, of an interface that is no longer claimed.
pub overlap-stale :
    (nusb : Answers) (a i cfg : ℕ) (k : EpKind) (u : Use)
    → ((calls : List Call) (c : Call) → nusb.done calls c ≡ ok tt)
    → Map.get a u.dev.endpoints ≡ none
    → is_claimed i u.dev.interfaces ≡ true
    → let s =
        overlap nusb
          (0 ∷ 0 ∷ 0 ∷ 1 ∷ 1 ∷ 1 ∷ 1 ∷ 0 ∷ [])
          (record { use_of = u; threads = (0, looking a i k) ∷ (1, clears_endpoints cfg) ∷ [] }) in
      (s.threads ≡ (0, ready) ∷ (1, ready) ∷ [])
      × (s.use_of.dev.endpoints ≡ (a, record { iface_num = i; kind = k }) ∷ [])
      × (is_claimed i s.use_of.dev.interfaces ≡ false)
unfolding overlap Map.get Map.insert ask is_claimed
overlap-stale nusb a i cfg k u fine missing have = ground (
  arith,
  missing,
  have,
  fine u.calls (open_endpoint i a k),
  fine (clear_halt a ∷ open_endpoint i a k ∷ u.calls) (set_configuration cfg),
)
