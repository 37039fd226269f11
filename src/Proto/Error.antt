-- ===== src/Proto/Error.antt =====
-- crates/usbip-proto/src/error.rs.
use usbipd_darwin.Common.{ℕ, Result}

pub data ProtoError : Type 0 where
  short_read : ℕ → ℕ → ProtoError
  unknown_op : ℕ → ProtoError
  unsupported_version : ℕ → ProtoError

-- What a decoder returns.
abbrev pub Decoded {ℓ} : Type ℓ → Type ℓ
Decoded A = Result A ProtoError
