-- ===== src/HidKeyboard.antt =====
-- crates/host-mac/examples/hid_keyboard.rs: the reports of a boot keyboard, as lines of text.
use usbipd_darwin.Common.{
  ℕ, zero, suc, ◌+◌, ◌-◌, List, [], ◌∷◌, ◌++◌, Option, none, some, unwrap_or, Bool, true, false,
  not, ◌&&◌, map, filter, Result, ok, err, ◌==◌, nat_eq, text_eq, leb, if◌then◌else◌, length, drop,
  replicate, codes, bit_and,
}
use usbipd_darwin.Common.Words.{index}
use usbipd_darwin.Common.Map
use usbipd_darwin.Common.Map.{Map}
use usbipd_darwin.Cli.Commands.{hex2}
use usbipd_darwin.Host.Open.{
  HostError, nusb, transfer, not_found, endpoint_not_found, unsupported_transfer, invalid_setup,
  capture, reenumerate_timeout,
}
use usbipd_darwin.Host.Transfer.Calls.{Answers, Use}
use usbipd_darwin.Host.Transfer.Transmit.{TransferResult, data_transfer}
pub mod Replay

-- What the program prints: a key with the modifiers, the modifiers alone, and on the other stream a
-- report of another size and the error that ends it.
pub data Line : Type 0 where
  down up : ℕ → ℕ → Line
  modifiers : ℕ → Line
  short_report : List ℕ → Line
  transfer_error : HostError → Line

unfoldable pub contains : ℕ → List ℕ → Bool
contains k [] = false
contains k (j ∷ js) = let rest = contains k js in if j == k then true else rest

-- `sort_unstable`
unfoldable pub insert_sorted : ℕ → List ℕ → List ℕ
insert_sorted k [] = k ∷ []
insert_sorted k (j ∷ js) = let rest = insert_sorted k js in if leb k j then k ∷ j ∷ js else j ∷ rest

unfoldable pub sort : List ℕ → List ℕ
unfolding insert_sorted
sort [] = []
sort (k ∷ ks) = insert_sorted k (sort ks)

-- `report[2..].iter().copied().filter(|&k| k != 0)`
abbrev pub keys_of : List ℕ → List ℕ
keys_of report = filter (λ k. not (k == 0)) (drop 2 report)

is_empty : List ℕ → Bool
is_empty [] = true
is_empty (_ ∷ _) = false

-- The reports have eight bytes.
unfoldable pub print_report : List ℕ → List ℕ → List Line
unfolding contains sort is_empty
print_report report prev =
    let mods = index report 0 in
    let keys = sort (keys_of report) in
    let prev_keys = keys_of prev in
    let pressed = filter (λ k. not (contains k prev_keys)) keys in
    let released = filter (λ k. not (contains k keys)) prev_keys in
    map (λ k. down k mods) pressed
    ++ (map (λ k. up k mods) released
        ++ (if is_empty pressed && (is_empty released && not (mods == index prev 0))
            then modifiers mods ∷ []
            else []))

on_report : TransferResult → List ℕ → List Line × List ℕ
unfolding print_report
on_report r prev =
    if length r.bytes == 8
    then if r.bytes == prev then ([], prev) else (print_report r.bytes prev, r.bytes)
    else (short_report r.bytes ∷ [], prev)

-- `Err(HostError::Transfer(TransferError::Cancelled))`, where nusb calls that error `cancelled`
is_timeout : ℕ → HostError → Bool
is_timeout cancelled (transfer e) = e == cancelled
is_timeout cancelled _ = false

module _ (nusb : Answers) (cancelled : ℕ) where
  -- The loop of `main`, with `rounds` for how often it finds `running` set.
  unfoldable pub read_reports : ℕ → List ℕ → Use → (List Line × List ℕ) × Use
  unfolding on_report is_timeout data_transfer
  read_reports zero prev u = (([], prev), u)
  read_reports (suc rounds) prev u =
      let (r, v) = data_transfer nusb 0x81 8 [] u in
      elim r as (λ _. (List Line × List ℕ) × Use) [
        | ok t ↦
            let (lines, prev') = on_report t prev in
            let ((more, last), w) = read_reports rounds prev' v in ((lines ++ more, last), w)
        | err e ↦
            let rest = read_reports rounds prev v in
            if is_timeout cancelled e then rest else ((transfer_error e ∷ [], prev), v)
      ]

unfoldable pub join_plus : List (List ℕ) → List ℕ
join_plus [] = []
join_plus (n ∷ []) = n
join_plus (n ∷ m ∷ ns) = n ++ (43 ∷ join_plus (m ∷ ns))

abbrev modifier_names : List (ℕ × List ℕ)
modifier_names =
    (0b00000001, codes "LCtrl")
    ∷ (0b00000010, codes "LShift")
    ∷ (0b00000100, codes "LAlt")
    ∷ (0b00001000, codes "LGUI")
    ∷ (0b00010000, codes "RCtrl")
    ∷ (0b00100000, codes "RShift")
    ∷ (0b01000000, codes "RAlt")
    ∷ (0b10000000, codes "RGUI")
    ∷ []

-- The names of the bits that are set.
unfoldable pub active_names : ℕ → List (ℕ × List ℕ) → List (List ℕ)
active_names m [] = []
active_names m ((b, name) ∷ ns) =
    let rest = active_names m ns in if bit_and m b == 0 then rest else name ∷ rest

unfoldable pub describe_mods : ℕ → List ℕ
unfolding active_names join_plus
describe_mods m = elim (active_names m modifier_names) as (λ _. List ℕ) [
  | [] ↦ codes "[no mods]"
  | n ∷ ns ↦ 91 ∷ (join_plus (n ∷ ns) ++ (93 ∷ []))
]

-- The usages with a name of their own.
abbrev usage_names : Map ℕ (List ℕ)
usage_names =
    (0x1e, codes "1")
    ∷ (0x1f, codes "2")
    ∷ (0x20, codes "3")
    ∷ (0x21, codes "4")
    ∷ (0x22, codes "5")
    ∷ (0x23, codes "6")
    ∷ (0x24, codes "7")
    ∷ (0x25, codes "8")
    ∷ (0x26, codes "9")
    ∷ (0x27, codes "0")
    ∷ (0x28, codes "Enter")
    ∷ (0x29, codes "Esc")
    ∷ (0x2a, codes "Backspace")
    ∷ (0x2b, codes "Tab")
    ∷ (0x2c, codes "Space")
    ∷ (0x2d, codes "-")
    ∷ (0x2e, codes "=")
    ∷ (0x2f, codes "[")
    ∷ (0x30, codes "]")
    ∷ (0x31, 92 ∷ [])
    ∷ (0x33, codes ";")
    ∷ (0x34, codes "'")
    ∷ (0x35, codes "`")
    ∷ (0x36, codes ",")
    ∷ (0x37, codes ".")
    ∷ (0x38, codes "/")
    ∷ (0x39, codes "CapsLk")
    ∷ (0x4f, codes "Right")
    ∷ (0x50, codes "Left")
    ∷ (0x51, codes "Down")
    ∷ (0x52, codes "Up")
    ∷ []

unfoldable pub hid_name : ℕ → List ℕ
unfolding Map.get
hid_name usage =
    if leb 0x04 usage && leb usage 0x1d
    then (65 + (usage - 0x04)) ∷ []
    else if leb 0x3a usage && leb usage 0x45
    then codes "Fn"
    else unwrap_or (Map.get usage usage_names) (codes "?")

-- `{:>10}`
pad_left : List ℕ → List ℕ
pad_left name = replicate (10 - length name) 32 ++ name

-- `{:>10}  usage=0x{:02x}  {}` behind the word
key_text : List ℕ → ℕ → ℕ → List ℕ
unfolding pad_left hid_name describe_mods hex2
key_text word k mods =
    word
    ++ (pad_left (hid_name k)
        ++ (codes "  usage=0x" ++ (hex2 k ++ (codes "  " ++ describe_mods mods))))

-- The lines of standard output.
unfoldable pub line_text : Line → Option (List ℕ)
unfolding key_text
line_text (down k mods) = some (key_text (codes "DOWN  ") k mods)
line_text (up k mods) = some (key_text (codes "UP    ") k mods)
line_text (modifiers mods) = some (codes "MOD   " ++ describe_mods mods)
line_text (short_report bytes) = none
line_text (transfer_error e) = none
