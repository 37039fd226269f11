-- ===== src/Common/Bits.antt =====
-- What the operations on bits do at variables: bounds, masks of low bits, and disjoint fields. Each
-- is proved over the digits that the native operation stands for.
use Prim.Native.Nat.{
  ℕ, zero, suc, ◌+◌, ◌-◌, ◌*◌, ◌/◌, ◌%◌, ◌^◌, ◌≤◌, ◌<◌, min, max, bit_and, bit_or, bit_xor, digits,
  differ, bit_and-bitwise, bit_or-bitwise, bit_xor-bitwise,
}
use mathlib.Core.Path.{◌≡◌, refl, ap, ◌∙◌}
use mathlib.Core.Bool.{Bool, true, ◌&&◌}
use native.Mathlib.Omega.{arith}
use native.Mathlib.Nat.{pow-suc}
use usbipd_darwin.Common.Tests.{nat_beq, nat_beq_iff}

pow_double : (k : ℕ) → 2 ^ suc k ≡ 2 * 2 ^ k
pow_double k = omega (arith, pow-suc 2 k)

differ-le : (x y : ℕ) → x < 2 → y < 2 → differ x y ≤ 1
differ-le zero y hx hy = omega arith
differ-le (suc zero) zero hx hy = omega arith
differ-le (suc zero) (suc zero) hx hy = omega arith
differ-le (suc zero) (suc (suc y)) hx hy = absurd (omega arith)
differ-le (suc (suc x)) y hx hy = absurd (omega arith)

xor_digits-lt : (n a b k : ℕ) → a < 2 ^ k → b < 2 ^ k → digits (λ b. b) differ n a b < 2 ^ k
xor_digits-lt zero a b k ha hb = hb
xor_digits-lt (suc n) zero b k ha hb = hb
xor_digits-lt (suc n) (suc a) b zero ha hb = absurd (omega arith)
xor_digits-lt (suc n) (suc a) b (suc k) ha hb = omega (
  arith,
  pow_double k,
  xor_digits-lt n (suc a / 2) (b / 2) k (omega (arith, pow_double k)) (omega (arith, pow_double k)),
  differ-le (suc a % 2) (b % 2) (omega arith) (omega arith),
)

-- The exclusive or of two numbers of `k` bits has `k` bits.
pub bit_xor-lt : (k a b : ℕ) → a < 2 ^ k → b < 2 ^ k → bit_xor a b < 2 ^ k
bit_xor-lt k a b ha hb = rw (bit_xor-bitwise a b) (xor_digits-lt a a b k ha hb)

pow_pos : (k : ℕ) → 0 < 2 ^ k
pow_pos zero = omega arith
pow_pos (suc k) = omega (arith, pow_double k, pow_pos k)

mod_double : (q r m : ℕ) → r < 2 → 0 < m → q % m * 2 + r ≡ (q * 2 + r) % (2 * m)
mod_double q r m hr hm = grind arith

and_digits-mask : (n a k : ℕ) → a ≤ n → digits (λ b. zero) min n a (2 ^ k - 1) ≡ a % 2 ^ k
and_digits-mask zero zero k h = ground (arith, pow_pos k)
and_digits-mask zero (suc a) k h = absurd (omega arith)
and_digits-mask (suc n) zero k h = ground (arith, pow_pos k)
and_digits-mask (suc n) (suc a) zero h =
    omega (arith, and_digits-mask n (suc a / 2) zero (omega arith))
and_digits-mask (suc n) (suc a) (suc k) h =
    let half : (2 ^ suc k - 1) / 2 ≡ 2 ^ k - 1 = omega (arith, pow_double k, pow_pos k) in
    let odd : (2 ^ suc k - 1) % 2 ≡ 1 = omega (arith, pow_double k, pow_pos k) in
    let ih = and_digits-mask n (suc a / 2) k (omega arith) in
    let bits = mod_double (suc a / 2) (suc a % 2) (2 ^ k) (omega arith) (pow_pos k) in
    let low : min (suc a % 2) 1 ≡ suc a % 2 = omega arith in
    let whole : suc a / 2 * 2 + suc a % 2 ≡ suc a = omega arith in
    rw (half, odd, ih, pow_double k, low) (rw whole at bits)

-- `x & (2^k - 1)` is the remainder by `2^k`.
pub bit_and-mask : (k a : ℕ) → bit_and a (2 ^ k - 1) ≡ a % 2 ^ k
bit_and-mask k a = rw (bit_and-bitwise a (2 ^ k - 1)) (and_digits-mask a a k (omega arith))

or_digits-zero : (n a : ℕ) → a ≤ n → digits (λ b. b) max n a 0 ≡ a
or_digits-zero zero zero h = refl
or_digits-zero zero (suc a) h = absurd (omega arith)
or_digits-zero (suc n) zero h = refl
or_digits-zero (suc n) (suc a) h = omega (arith, or_digits-zero n (suc a / 2) (omega arith))

mul_double : (q k : ℕ) → q * 2 ^ suc k ≡ 2 * (q * 2 ^ k)
mul_double q k = omega (arith, ap (λ (t : ℕ). q * t) (pow_double k))

or_digits-fields :
    (n a q r k : ℕ) → a ≤ n → a ≡ q * 2 ^ k → r < 2 ^ k → digits (λ b. b) max n a r ≡ a + r
or_digits-fields zero zero q r k h e hr = omega arith
or_digits-fields zero (suc a) q r k h e hr = absurd (omega arith)
or_digits-fields (suc n) zero q r k h e hr = omega arith
or_digits-fields (suc n) (suc a) q zero zero h e hr = or_digits-zero (suc n) (suc a) h ∙ omega arith
or_digits-fields (suc n) (suc a) q (suc r) zero h e hr = absurd (omega arith)
or_digits-fields (suc n) (suc a) q r (suc k) h e hr = omega (
  arith,
  mul_double q k,
  or_digits-fields n (suc a / 2) q (r / 2) k (omega arith) (omega (arith, mul_double q k))
      (omega (arith, pow_double k)),
)

-- `(q << k) | r` is a sum when `r` has `k` bits.
pub bit_or-fields : (k q r : ℕ) → r < 2 ^ k → bit_or (q * 2 ^ k) r ≡ q * 2 ^ k + r
bit_or-fields k q r hr =
    rw (bit_or-bitwise (q * 2 ^ k) r)
      (or_digits-fields (q * 2 ^ k) (q * 2 ^ k) q r k (omega arith) refl hr)

-- Facts about bytes, by evaluation at each.
unfoldable pub every_byte : (ℕ → Bool) → ℕ → Bool
every_byte test zero = true
every_byte test (suc b) = let lower = every_byte test b in lower && test b

every_byte-lt :
    (test : ℕ → Bool) (bound b : ℕ) → b < bound → every_byte test bound ≡ true → test b ≡ true
unfolding every_byte
every_byte-lt test zero b below all = absurd (omega arith)
every_byte-lt test (suc bound) b below all = ground (arith, every_byte-lt test bound b)

top_bit_table : every_byte (λ x. nat_beq (bit_and x 0x80) (x / 128 * 128)) 256 ≡ true
unfolding every_byte
top_bit_table = refl

-- The highest bit of a byte.
pub bit_and-top : (x : ℕ) → x < 256 → bit_and x 0x80 ≡ x / 128 * 128
bit_and-top x h = (nat_beq_iff _ _).0 (every_byte-lt _ 256 x h top_bit_table)

low_field_table : every_byte (λ x. nat_beq (bit_and (bit_or x 0x80) 0x80) 0x80) 16 ≡ true
unfolding every_byte
low_field_table = refl

-- The highest bit of a byte above four bits.
pub bit_and-top_set : (a : ℕ) → bit_and (bit_or (bit_and a 0xf) 0x80) 0x80 ≡ 0x80
bit_and-top_set a =
    let low : bit_and a 0xf < 16 = omega (arith, bit_and-mask 4 a) in
    (nat_beq_iff _ _).0 (every_byte-lt _ 16 (bit_and a 0xf) low low_field_table)
