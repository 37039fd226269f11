-- ===== src/Common/Utf8.antt =====
-- Rust strings as lists of bytes: `char::encode_utf8` and `String::from_utf8_lossy` of the
-- standard library. The decoder goes over the bytes once; `Pending` is the start of a sequence that
-- is valid so far, and a sequence that breaks off is replaced by U+FFFD as a whole.
use Prim.Native.Nat.{ℕ, ◌+◌, ◌/◌, ◌%◌, ◌≤◌, ◌<◌}
use mathlib.Core.Path.{◌≡◌, refl, ap, ◌∙◌}
use mathlib.Core.Logic.{◌⊎◌}
use mathlib.Core.Bool.{Bool, ◌&&◌}
use mathlib.Core.List.{List, [], ◌∷◌, ◌++◌}
use native.Mathlib.Omega.{arith}
use usbipd_darwin.Common.Tests.{ltb, leb, nat_beq, if◌then◌else◌}
use usbipd_darwin.Common.Lists.{All}

pub data Pending : Type 0 where
  nothing : Pending
  one : ℕ → Pending
  two : ℕ → ℕ → Pending
  three : ℕ → ℕ → ℕ → Pending

-- U+FFFD
abbrev pub replacement : List ℕ
replacement = 0xef ∷ 0xbf ∷ 0xbd ∷ []

abbrev within : ℕ → ℕ → ℕ → Bool
within lo hi b = leb lo b && leb b hi

-- The second byte that may follow the first byte `a`.
abbrev second_ok : ℕ → ℕ → Bool
second_ok a b =
    if nat_beq a 0xe0
    then within 0xa0 0xbf b
    else if nat_beq a 0xed
    then within 0x80 0x9f b
    else if nat_beq a 0xf0
    then within 0x90 0xbf b
    else if nat_beq a 0xf4
    then within 0x80 0x8f b
    else within 0x80 0xbf b

start : ℕ → List ℕ × Pending
start b =
    if ltb b 0x80
    then (b ∷ [], nothing)
    else if within 0xc2 0xf4 b
    then ([], one b)
    else (replacement, nothing)

-- A byte that does not continue the sequence starts a new one.
restart : ℕ → List ℕ × Pending
unfolding start
restart b = let (out, p) = start b in (replacement ++ out, p)

step : Pending → ℕ → List ℕ × Pending
unfolding start restart
step nothing b = start b
step (one a) b =
    if second_ok a b
    then (if ltb a 0xe0 then (a ∷ b ∷ [], nothing) else ([], two a b))
    else restart b
step (two a c) b =
    if within 0x80 0xbf b
    then (if ltb a 0xf0 then (a ∷ c ∷ b ∷ [], nothing) else ([], three a c b))
    else restart b
step (three a c d) b = if within 0x80 0xbf b then (a ∷ c ∷ d ∷ b ∷ [], nothing) else restart b

lossy_from : Pending → List ℕ → List ℕ
unfolding step
lossy_from nothing [] = []
lossy_from p [] = replacement
lossy_from p (b ∷ bs) = let (out, q) = step p b in out ++ lossy_from q bs

unfoldable pub from_utf8_lossy : List ℕ → List ℕ
unfolding lossy_from
from_utf8_lossy = lossy_from nothing

-- A `char`: a code point that is no surrogate.
abbrev pub IsChar : ℕ → Type 0
IsChar c = (c < 0x110000) × ((c < 0xd800) ⊎ (0xe000 ≤ c))

unfoldable pub encode_utf8 : ℕ → List ℕ
encode_utf8 c =
    if ltb c 0x80
    then c ∷ []
    else if ltb c 0x800
    then (0xc0 + c / 64) ∷ (0x80 + c % 64) ∷ []
    else if ltb c 0x10000
    then (0xe0 + c / 4096) ∷ (0x80 + c / 64 % 64) ∷ (0x80 + c % 64) ∷ []
    else (0xf0 + c / 262144) ∷ (0x80 + c / 4096 % 64) ∷ (0x80 + c / 64 % 64) ∷ (0x80 + c % 64) ∷ []

-- The bytes of a text.
abbrev pub utf8 : List ℕ → List ℕ
utf8 [] = []
utf8 (c ∷ cs) = encode_utf8 c ++ utf8 cs

-- The bytes are those of some text.
pub record IsUtf8 (bs : List ℕ) : Type 0 where
  pub chars : List ℕ
  pub valid : All IsChar chars
  pub bytes : bs ≡ utf8 chars

lossy_from-encode_utf8 :
    (c : ℕ) (rest : List ℕ)
    → IsChar c
    → lossy_from nothing (encode_utf8 c ++ rest) ≡ encode_utf8 c ++ lossy_from nothing rest
unfolding lossy_from encode_utf8
lossy_from-encode_utf8 c rest h = ground arith

lossy_from-utf8 : (cs : List ℕ) → All IsChar cs → lossy_from nothing (utf8 cs) ≡ utf8 cs
lossy_from-utf8 [] h = unfold lossy_from in refl
lossy_from-utf8 (c ∷ cs) h =
    lossy_from-encode_utf8 c (utf8 cs) h.0 ∙ ap (λ t. encode_utf8 c ++ t) (lossy_from-utf8 cs h.1)

-- The bytes of a text come back unchanged.
pub from_utf8_lossy-IsUtf8 : (bs : List ℕ) → IsUtf8 bs → from_utf8_lossy bs ≡ bs
unfolding from_utf8_lossy
from_utf8_lossy-IsUtf8 bs h = rw h.bytes (lossy_from-utf8 h.chars h.valid)
