-- ===== src/Events/Lines.antt =====
-- The events of crates/usbipd/src/events.rs and the lines that they are written as. What serde_json
-- makes of an event is the parameter `to_string`.
use usbipd_darwin.Common.{
  ℕ, List, [], ◌∷◌, ◌++◌, Option, ◌≡◌, ◌≢◌, refl, ap, ◌∙◌, arith, All, map, append_assoc, ◌==◌,
  nat_eq, nat_beq_iff, if◌then◌else◌,
}
use usbipd_darwin.Host.Devices.{UsbDevice}
use usbipd_darwin.Cli.Pairs.{hex4}

pub record RemovedDevice : Type 0 where
  pub busid : List ℕ
  pub vendor_id : List ℕ
  pub product_id : List ℕ

pub record AddedDevice : Type 0 where
  pub busid : List ℕ
  pub vendor_id : List ℕ
  pub product_id : List ℕ
  pub manufacturer : Option (List ℕ)
  pub product : Option (List ℕ)
  pub serial : Option (List ℕ)
  pub class : ℕ
  pub subclass : ℕ
  pub protocol : ℕ
  pub speed : ℕ

pub data EventLine : Type 0 where
  added : AddedDevice → EventLine
  removed : RemovedDevice → EventLine

-- `impl From<&AddedDevice> for RemovedDevice`
unfoldable pub identity : AddedDevice → RemovedDevice
identity a = record { busid = a.busid; vendor_id = a.vendor_id; product_id = a.product_id }

unfoldable pub from_host : UsbDevice → AddedDevice
from_host d = record {
  busid = d.busid;
  vendor_id = hex4 d.vendor_id;
  product_id = hex4 d.product_id;
  manufacturer = d.manufacturer;
  product = d.product;
  serial = d.serial;
  class = d.class;
  subclass = d.subclass;
  protocol = d.protocol;
  speed = d.speed;
}

unfoldable pub encode_line : (EventLine → List ℕ) → EventLine → List ℕ
encode_line to_string ev = to_string ev ++ (10 ∷ [])

-- What a subscriber's socket carries.
unfoldable pub write_lines : (EventLine → List ℕ) → List EventLine → List ℕ
unfolding encode_line
write_lines to_string [] = []
write_lines to_string (ev ∷ evs) = encode_line to_string ev ++ write_lines to_string evs

-- A reader of lines: the lines that are complete.
cons_line : ℕ → List (List ℕ) → List (List ℕ)
cons_line c [] = []
cons_line c (l ∷ ls) = (c ∷ l) ∷ ls

unfoldable pub read_lines : List ℕ → List (List ℕ)
unfolding cons_line
read_lines [] = []
read_lines (c ∷ cs) = let rest = read_lines cs in if c == 10 then [] ∷ rest else cons_line c rest

read_lines-line :
    (l rest : List ℕ) → All (λ c. c ≢ 10) l → read_lines (l ++ (10 ∷ rest)) ≡ l ∷ read_lines rest
unfolding read_lines
read_lines-line [] rest h = refl
read_lines-line (c ∷ l) rest h = ground (arith, read_lines-line l rest h.1, nat_beq_iff c 10)

-- Where the text of no event holds a line feed, a reader of lines gets one line for each event, which
-- is its text.
pub read_lines-write_lines :
    (to_string : EventLine → List ℕ)
    → ((ev : EventLine) → All (λ c. c ≢ 10) (to_string ev))
    → (evs : List EventLine) → read_lines (write_lines to_string evs) ≡ map to_string evs
unfolding write_lines read_lines
read_lines-write_lines to_string plain [] = refl
read_lines-write_lines to_string plain (ev ∷ evs) =
    ap read_lines (append_assoc (to_string ev) (10 ∷ []) (write_lines to_string evs))
    ∙ read_lines-line (to_string ev) (write_lines to_string evs) (plain ev)
    ∙ ap (λ ls. to_string ev ∷ ls) (read_lines-write_lines to_string plain evs)
