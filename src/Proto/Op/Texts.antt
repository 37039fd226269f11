-- ===== src/Proto/Op/Texts.antt =====
-- The texts of fixed width in the messages of crates/usbip-proto/src/op.rs.
use usbipd_darwin.Common.{
  ℕ, zero, suc, ◌-◌, ◌≤◌, ◌<◌, min, List, [], ◌∷◌, ◌++◌, ◌≡◌, refl, ap, sym, length, none, some, ok,
  le→ltb, replicate, arith, All, append-nil, length-append, take-append, take-length_le,
}
use usbipd_darwin.Common.Utf8.{IsUtf8, from_utf8_lossy-IsUtf8}
use usbipd_darwin.Proto.Op.Device.{
  position_zero, read_fixed_str, decode_req_import_busid, write_fixed_str,
}
use usbipd_darwin.Proto.Op.Layout.{fixed_str, length-fixed_str, write_fixed_str-append}

-- Texts that the fixed-width fields can hold: valid UTF-8 with no zero byte, short enough.
pub record FitsIn (width : ℕ) (s : List ℕ) : Type 0 where
  pub fits : length s ≤ width
  pub no_zero : All (λ b. 0 < b) s
  pub text : IsUtf8 s

position_zero-none : (s : List ℕ) → All (λ b. 0 < b) s → position_zero s ≡ none
unfolding position_zero
position_zero-none [] h = refl
position_zero-none (b ∷ bs) h = ground (arith, position_zero-none bs)

position_zero-some :
    (s t : List ℕ) → All (λ b. 0 < b) s → position_zero (s ++ (0 ∷ t)) ≡ some (length s)
unfolding position_zero
position_zero-some [] t h = refl
position_zero-some (b ∷ bs) t h = ground (arith, position_zero-some bs t)

-- Reading a padded text takes the padding off.
read_fixed_str-pad :
    (s : List ℕ) (k : ℕ) → All (λ b. 0 < b) s → IsUtf8 s → read_fixed_str (s ++ replicate k 0) ≡ s
unfolding read_fixed_str
read_fixed_str-pad s zero h u =
    rw (append-nil s, position_zero-none s h, take-length_le (length s) s (omega arith))
      (from_utf8_lossy-IsUtf8 s u)
read_fixed_str-pad s (suc k) h u =
    rw (position_zero-some s (replicate k 0) h, take-append (length s) s (0 ∷ replicate k 0) refl)
      (from_utf8_lossy-IsUtf8 s u)

pub read_fixed_str-fixed_str :
    (width : ℕ) (s : List ℕ) → FitsIn width s → read_fixed_str (fixed_str s width) ≡ s
unfolding fixed_str
read_fixed_str-fixed_str width s f =
    let e : min (length s) width ≡ length s = omega (arith, f.fits) in
    rw (e, take-length_le (length s) s (omega arith))
      (read_fixed_str-pad s (width - length s) f.no_zero f.text)

-- A busid of at most 32 bytes, UTF-8 and without a zero byte, comes back from the 32 bytes of an
-- import request, whatever follows them.
pub decode_req_import_busid-write_fixed_str :
    (busid rest : List ℕ)
    → FitsIn 32 busid
    → decode_req_import_busid (write_fixed_str [] busid 32 ++ rest) ≡ ok busid
unfolding decode_req_import_busid
decode_req_import_busid-write_fixed_str busid rest f =
    let enough : 32 ≤ length (fixed_str busid 32 ++ rest) =
      rw length-append (omega (arith, length-fixed_str busid 32)) in
    rw
      (
        write_fixed_str-append [] busid 32,
        le→ltb (length (fixed_str busid 32 ++ rest)) 32 enough,
        take-append 32 (fixed_str busid 32) rest (sym (length-fixed_str busid 32)),
      )
      (ap ok (read_fixed_str-fixed_str 32 busid f))
