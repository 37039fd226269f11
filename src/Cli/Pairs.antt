-- ===== src/Cli/Pairs.antt =====
-- The `--allow` pairs of crates/usbipd/src/main.rs: `parse_vid_pid`, and the form that `list` prints.
use usbipd_darwin.Common.{
  ℕ, ◌+◌, ◌-◌, ◌*◌, ◌/◌, ◌%◌, ◌^◌, ◌<◌, List, [], ◌∷◌, ◌++◌, Option, none, some, ◌&&◌, ◌≡◌, arith,
  Result, ok, ◌>>=◌, ok_or, ◌==◌, nat_eq, leb, ltb, if◌then◌else◌,
}

pub data PairError : Type 0 where
  no_colon bad_vid bad_pid : PairError

-- `char::to_digit(16)`
unfoldable pub hex_digit : ℕ → Option ℕ
hex_digit c =
    if leb 48 c && leb c 57
    then some (c - 48)
    else if leb 97 c && leb c 102
    then some (c - 87)
    else if leb 65 c && leb c 70
    then some (c - 55)
    else none

-- The digits, with an overflow check of the `u16` at each.
hex_digits : ℕ → List ℕ → Option ℕ
hex_digits n [] = some n
hex_digits n (c ∷ cs) = elim (hex_digit c) as (λ _. Option ℕ) [
  | none ↦ none
  | some d ↦ if ltb (n * 16 + d) (2 ^ 16) then hex_digits (n * 16 + d) cs else none
]

-- `u16::from_str_radix(s, 16)`: an optional `+`, then digits.
unfoldable pub u16_from_hex : List ℕ → Option ℕ
unfolding hex_digits
u16_from_hex [] = none
u16_from_hex (c ∷ []) = if c == 43 then none else hex_digits 0 (c ∷ [])
u16_from_hex (c ∷ d ∷ cs) = if c == 43 then hex_digits 0 (d ∷ cs) else hex_digits 0 (c ∷ d ∷ cs)

-- `s.split_once(':')`
unfoldable pub split_once : List ℕ → Option (List ℕ × List ℕ)
split_once [] = none
split_once (c ∷ cs) =
    let rest = split_once cs in
    if c == 58 then some ([], cs) else elim rest as (λ _. Option (List ℕ × List ℕ)) [
      | none ↦ none
      | some (v, p) ↦ some (c ∷ v, p)
    ]

unfoldable pub parse_vid_pid : List ℕ → Result (ℕ × ℕ) PairError
parse_vid_pid s = do
  (v, p) ← ok_or (split_once s) no_colon
  vid ← ok_or (u16_from_hex v) bad_vid
  pid ← ok_or (u16_from_hex p) bad_pid
  ok (vid, pid)

abbrev pub lower_hex : ℕ → ℕ
lower_hex d = if ltb d 10 then 48 + d else 87 + d

-- `{:04x}` of a `u16`
unfoldable pub hex4 : ℕ → List ℕ
hex4 n =
    lower_hex (n / 4096)
    ∷ lower_hex (n / 256 % 16)
    ∷ lower_hex (n / 16 % 16)
    ∷ lower_hex (n % 16)
    ∷ []

hex_digit-lower_hex : (d : ℕ) → d < 16 → hex_digit (lower_hex d) ≡ some d
unfolding hex_digit
hex_digit-lower_hex d h = ground arith

u16_from_hex-hex4 : (n : ℕ) → n < 2 ^ 16 → u16_from_hex (hex4 n) ≡ some n
unfolding u16_from_hex hex4
u16_from_hex-hex4 n h = ground (
  arith,
  hex_digit-lower_hex (n / 4096) (omega arith),
  hex_digit-lower_hex (n / 256 % 16) (omega arith),
  hex_digit-lower_hex (n / 16 % 16) (omega arith),
  hex_digit-lower_hex (n % 16) (omega arith),
)

-- `hex4 v` holds no colon.
split_once-hex4 : (v : ℕ) (rest : List ℕ) → split_once (hex4 v ++ (58 ∷ rest)) ≡ some (hex4 v, rest)
unfolding split_once hex4
split_once-hex4 v rest = ground arith

-- The pair that `list` prints behind `--allow` for a device is parsed as that device's numbers.
pub parse_vid_pid-hex4 :
    (vid pid : ℕ)
    → vid < 2 ^ 16
    → pid < 2 ^ 16
    → parse_vid_pid (hex4 vid ++ (58 ∷ hex4 pid)) ≡ ok (vid, pid)
unfolding parse_vid_pid
parse_vid_pid-hex4 vid pid hv hp =
    rw (split_once-hex4 vid (hex4 pid), u16_from_hex-hex4 vid hv, u16_from_hex-hex4 pid hp)
