-- ===== src/Common/Words.antt =====
-- Machine words as native numbers: bytes, big-endian and little-endian words, `i32` patterns.
use Prim.Native.Nat.{ℕ, suc, ◌+◌, ◌-◌, ◌*◌, ◌/◌, ◌%◌, ◌^◌, ◌<◌}
use mathlib.Core.Path.{◌≡◌}
use mathlib.Core.List.{List, [], ◌∷◌}
use native.Mathlib.Omega.{arith}
use usbipd_darwin.Common.Tests.{ltb, if◌then◌else◌}
use usbipd_darwin.Common.Int.{ℤ, pos, negsuc}
use usbipd_darwin.Common.Lists.{All, get_or}

abbrev pub IsU8 : ℕ → Type 0
IsU8 b = b < 256

abbrev pub IsU16 : ℕ → Type 0
IsU16 n = n < 2 ^ 16

abbrev pub IsU32 : ℕ → Type 0
IsU32 n = n < 2 ^ 32

abbrev pub IsI32 : ℤ → Type 0
IsI32 (pos n) = n < 2 ^ 31
IsI32 (negsuc n) = n < 2 ^ 31

abbrev pub IsBytes : List ℕ → Type 0
IsBytes bs = All IsU8 bs

-- `buf[i]`, behind a length test that makes the index valid.
abbrev pub index : List ℕ → ℕ → ℕ
index buf i = get_or buf i 0

-- `u16::to_be_bytes`, `u32::to_be_bytes`
abbrev pub u16_to_be_bytes : ℕ → List ℕ
u16_to_be_bytes n = (n / 2 ^ 8 % 256) ∷ (n % 256) ∷ []

abbrev pub u32_to_be_bytes : ℕ → List ℕ
u32_to_be_bytes n = (n / 2 ^ 24 % 256) ∷ (n / 2 ^ 16 % 256) ∷ (n / 2 ^ 8 % 256) ∷ (n % 256) ∷ []

-- `u16::from_be_bytes`, `u32::from_be_bytes`, `u16::from_le_bytes`
abbrev pub u16_from_be_bytes : ℕ → ℕ → ℕ
u16_from_be_bytes a b = a * 2 ^ 8 + b

abbrev pub u32_from_be_bytes : ℕ → ℕ → ℕ → ℕ → ℕ
u32_from_be_bytes a b c d = a * 2 ^ 24 + b * 2 ^ 16 + c * 2 ^ 8 + d

abbrev pub u16_from_le_bytes : ℕ → ℕ → ℕ
u16_from_le_bytes a b = b * 2 ^ 8 + a

-- The pattern of an `i32`, and the `i32` of a pattern.
abbrev pub i32_to_u32 : ℤ → ℕ
i32_to_u32 (pos n) = n
i32_to_u32 (negsuc n) = 2 ^ 32 - suc n

abbrev pub u32_to_i32 : ℕ → ℤ
u32_to_i32 w = if ltb w (2 ^ 31) then pos w else negsuc (2 ^ 32 - suc w)

abbrev pub i32_to_be_bytes : ℤ → List ℕ
i32_to_be_bytes z = u32_to_be_bytes (i32_to_u32 z)

abbrev pub i32_from_be_bytes : ℕ → ℕ → ℕ → ℕ → ℤ
i32_from_be_bytes a b c d = u32_to_i32 (u32_from_be_bytes a b c d)

pub u16_be_round : (n : ℕ) → IsU16 n → u16_from_be_bytes (n / 2 ^ 8 % 256) (n % 256) ≡ n
u16_be_round n h = omega arith

pub u32_be_round :
    (n : ℕ)
    → IsU32 n
    → u32_from_be_bytes (n / 2 ^ 24 % 256) (n / 2 ^ 16 % 256) (n / 2 ^ 8 % 256) (n % 256) ≡ n
u32_be_round n h = omega arith

pub i32_round : (z : ℤ) → IsI32 z → u32_to_i32 (i32_to_u32 z) ≡ z
i32_round (pos n) h = ground arith
i32_round (negsuc n) h = ground arith

pub IsU32-i32_to_u32 : (z : ℤ) → IsI32 z → IsU32 (i32_to_u32 z)
IsU32-i32_to_u32 (pos n) h = omega arith
IsU32-i32_to_u32 (negsuc n) h = omega arith

pub u32_round : (w : ℕ) → IsU32 w → i32_to_u32 (u32_to_i32 w) ≡ w
u32_round w h = ground arith

-- The bytes of a word that was read from four bytes.
pub u32_bytes_round :
    (a b c d : ℕ)
    → IsU8 a
    → IsU8 b
    → IsU8 c
    → IsU8 d
    → u32_to_be_bytes (u32_from_be_bytes a b c d) ≡ a ∷ b ∷ c ∷ d ∷ []
u32_bytes_round a b c d ha hb hc hd = ground arith

pub i32_bytes_round :
    (a b c d : ℕ)
    → IsU8 a
    → IsU8 b
    → IsU8 c
    → IsU8 d
    → i32_to_be_bytes (i32_from_be_bytes a b c d) ≡ a ∷ b ∷ c ∷ d ∷ []
i32_bytes_round a b c d ha hb hc hd =
    rw (u32_round (u32_from_be_bytes a b c d) (omega arith)) (u32_bytes_round a b c d ha hb hc hd)
