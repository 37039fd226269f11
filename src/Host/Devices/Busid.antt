-- ===== src/Host/Devices/Busid.antt =====
-- The busids of crates/host-mac/src/lib.rs: what one tells of its device.
use usbipd_darwin.Common.{
  ℕ, ◌≤◌, ◌<◌, List, [], ◌∷◌, ◌++◌, ◌≡◌, ◌≢◌, ◌⊎◌, inl, inr, refl, ap, ap₂, sym, subst, ◌∙◌, arith,
  All, All-append,
}
use usbipd_darwin.Common.Words.{IsU8}
use usbipd_darwin.Host.Nusb.{DeviceInfo, IsDeviceInfo}
use usbipd_darwin.Host.Devices.{u8_to_string, join_ports, format_busid}

-- The code points from `n` on.
abbrev From : ℕ → List ℕ → Type 0
From n s = All (λ z. n ≤ z) s

From-append : (n c : ℕ) (b y : List ℕ) → c < n → From n (b ++ (c ∷ y)) → ⊥
From-append n c [] y h (first, _) = omega arith
From-append n c (z ∷ b) y h (_, rest) = From-append n c b y h rest

tail_eq : (c z : ℕ) (x y : List ℕ) → c ∷ x ≡ z ∷ y → x ≡ y
tail_eq c z x y e = ground arith

-- A separator that is in none of the parts before it.
first_split :
    (n c : ℕ) (a b x y : List ℕ)
    → c < n
    → From n a
    → From n b
    → a ++ (c ∷ x) ≡ b ++ (c ∷ y)
    → (a ≡ b) × (x ≡ y)
first_split n c [] [] x y h fa fb e = (refl, tail_eq c c x y e)
first_split n c [] (z ∷ b) x y h fa fb e = absurd (ground (arith, e))
first_split n c (z ∷ a) [] x y h fa fb e = absurd (ground (arith, e))
first_split n c (z ∷ a) (w ∷ b) x y h (_, fa) (_, fb) e =
    let (same, rest) =
      first_split n c a b x y h fa fb (tail_eq z w (a ++ (c ∷ x)) (b ++ (c ∷ y)) e) in
    (ground (arith, e, same), rest)

-- A separator that is in none of the parts behind it.
last_split :
    (n c : ℕ) (a b x y : List ℕ)
    → c < n
    → From n x
    → From n y
    → a ++ (c ∷ x) ≡ b ++ (c ∷ y)
    → (a ≡ b) × (x ≡ y)
last_split n c [] [] x y h fx fy e = (refl, tail_eq c c x y e)
last_split n c [] (z ∷ b) x y h fx fy e =
    absurd (From-append n c b y h (subst (From n) (tail_eq c z x (b ++ (c ∷ y)) e) fx))
last_split n c (z ∷ a) [] x y h fx fy e =
    absurd (From-append n c a x h (subst (From n) (sym (tail_eq z c (a ++ (c ∷ x)) y e)) fy))
last_split n c (z ∷ a) (w ∷ b) x y h fx fy e =
    let (same, rest) =
      last_split n c a b x y h fx fy (tail_eq z w (a ++ (c ∷ x)) (b ++ (c ∷ y)) e) in
    (ground (arith, e, same), rest)

u8_to_string-From : (n : ℕ) → From 48 (u8_to_string n)
unfolding u8_to_string
u8_to_string-From n = ground arith

u8_to_string-injective : (p q : ℕ) → IsU8 p → IsU8 q → u8_to_string p ≡ u8_to_string q → p ≡ q
unfolding u8_to_string
u8_to_string-injective p q hp hq e = ground arith

weaken : (s : List ℕ) → From 48 s → From 46 s
weaken [] h = tt
weaken (z ∷ s) (first, rest) = (omega arith, weaken s rest)

join_ports-From : (ps : List ℕ) → From 46 (join_ports ps)
unfolding join_ports
join_ports-From [] = tt
join_ports-From (p ∷ []) = weaken (u8_to_string p) (u8_to_string-From p)
join_ports-From (p ∷ q ∷ ps) =
    All-append (λ z. 46 ≤ z) (u8_to_string p) (46 ∷ join_ports (q ∷ ps))
      (weaken (u8_to_string p) (u8_to_string-From p)) (omega arith, join_ports-From (q ∷ ps))

join_ports-injective :
    (p q : ℕ) (ps qs : List ℕ)
    → All IsU8 (p ∷ ps)
    → All IsU8 (q ∷ qs)
    → join_ports (p ∷ ps) ≡ join_ports (q ∷ qs)
    → p ∷ ps ≡ q ∷ qs
unfolding join_ports
join_ports-injective p q [] [] (hp, _) (hq, _) e =
    ap (λ z. z ∷ []) (u8_to_string-injective p q hp hq e)
join_ports-injective p q [] (s ∷ qs) hp hq e = absurd (
    From-append 48 46 (u8_to_string q) (join_ports (s ∷ qs)) (omega arith)
      (subst (From 48) e (u8_to_string-From p)))
join_ports-injective p q (r ∷ ps) [] hp hq e = absurd (
    From-append 48 46 (u8_to_string p) (join_ports (r ∷ ps)) (omega arith)
      (subst (From 48) (sym e) (u8_to_string-From q)))
join_ports-injective p q (r ∷ ps) (s ∷ qs) (hp, hps) (hq, hqs) e =
    let (first, rest) =
      first_split 48 46 (u8_to_string p) (u8_to_string q) (join_ports (r ∷ ps))
        (join_ports (s ∷ qs)) (omega arith) (u8_to_string-From p) (u8_to_string-From q) e in
    ap₂ (λ z zs. z ∷ zs) (u8_to_string-injective p q hp hq first)
      (join_ports-injective r s ps qs hps hqs rest)

-- What stands for a missing chain is no chain: its first port would be 0.
abbrev ports_text : DeviceInfo → List ℕ
ports_text i = elim i.port_chain as (λ _. List ℕ) [
  | [] ↦ join_ports (0 ∷ i.device_address ∷ [])
  | p ∷ ps ↦ join_ports (p ∷ ps)
]

format_busid-parts :
    (i : DeviceInfo) (chain : List ℕ)
    → i.port_chain ≡ chain
    → format_busid i ≡ i.bus_id ++ (45 ∷ ports_text i)
unfolding format_busid join_ports u8_to_string
format_busid-parts i [] h = rw h refl
format_busid-parts i (p ∷ ps) h = rw h refl

ports_text-From : (i : DeviceInfo) (chain : List ℕ) → i.port_chain ≡ chain → From 46 (ports_text i)
ports_text-From i [] h = rw h (join_ports-From (0 ∷ i.device_address ∷ []))
ports_text-From i (p ∷ ps) h = rw h (join_ports-From (p ∷ ps))

abbrev pub SamePlace : DeviceInfo → DeviceInfo → Type 0
SamePlace i j =
    (i.port_chain ≡ j.port_chain) × ((i.port_chain ≢ []) ⊎ (i.device_address ≡ j.device_address))

ports_text-injective :
    (i j : DeviceInfo) (c d : List ℕ)
    → IsU8 i.device_address
    → IsU8 j.device_address
    → i.port_chain ≡ c
    → j.port_chain ≡ d
    → All IsU8 c
    → All IsU8 d
    → All (λ p. 1 ≤ p) c
    → All (λ p. 1 ≤ p) d
    → ports_text i ≡ ports_text j
    → SamePlace i j
ports_text-injective i j [] [] ai aj hi hj ui uj pi pj e =
    let same =
      join_ports-injective 0 0 (i.device_address ∷ []) (j.device_address ∷ [])
        (omega arith, (ai, tt)) (omega arith, (aj, tt)) (rw (hi, hj) at e) in
    (hi ∙ sym hj, inr (ground (arith, same)))
ports_text-injective i j [] (q ∷ qs) ai aj hi hj ui uj pi pj e =
    let same =
      join_ports-injective 0 q (i.device_address ∷ []) qs (omega arith, (ai, tt)) uj
        (rw (hi, hj) at e) in
    absurd (ground (arith, same, pj.0))
ports_text-injective i j (p ∷ ps) [] ai aj hi hj ui uj pi pj e =
    let same =
      join_ports-injective p 0 ps (j.device_address ∷ []) ui (omega arith, (aj, tt))
        (rw (hi, hj) at e) in
    absurd (ground (arith, same, pi.0))
ports_text-injective i j (p ∷ ps) (q ∷ qs) ai aj hi hj ui uj pi pj e =
    let same = join_ports-injective p q ps qs ui uj (rw (hi, hj) at e) in
    (hi ∙ same ∙ sym hj, inl (λ none_there. ground (arith, hi, none_there)))

-- Two devices with fields of nusb's widths and port numbers from 1 on that have the same busid are on
-- the same bus and behind the same chain of ports; and where there is no chain, they have the same
-- address. Whatever the bus ids contain, `-` included.
pub format_busid-injective :
    (i j : DeviceInfo)
    → IsDeviceInfo i
    → IsDeviceInfo j
    → All (λ p. 1 ≤ p) i.port_chain
    → All (λ p. 1 ≤ p) j.port_chain
    → format_busid i ≡ format_busid j
    → (i.bus_id ≡ j.bus_id) × SamePlace i j
format_busid-injective i j wi wj pi pj e =
    let (bus, text) =
      last_split 46 45 i.bus_id j.bus_id (ports_text i) (ports_text j) (omega arith)
        (ports_text-From i i.port_chain refl) (ports_text-From j j.port_chain refl)
        (sym (format_busid-parts i i.port_chain refl)
          ∙ e
          ∙ format_busid-parts j j.port_chain refl) in
    (
      bus,
      ports_text-injective i j i.port_chain j.port_chain wi.device_address wj.device_address refl
          refl wi.port_chain wj.port_chain pi pj text,
    )
