-- ===== src/Proto/Urb/Exact.antt =====
-- What decoding in URB mode accepts: fields of their widths, which encode to the bytes they came from.
use usbipd_darwin.Common.{
  ℕ, List, [], ◌∷◌, ◌++◌, ◌≡◌, subst, length, ok, arith, take, take-length_le,
}
use usbipd_darwin.Common.Words.{
  IsBytes, IsU32, IsI32, u32_to_be_bytes, u32_from_be_bytes, i32_from_be_bytes, i32_bytes_round,
  u32_be_round,
}
use usbipd_darwin.Proto.Urb.Messages.{
  UrbHeader, IsUrbHeader, encode_header, decode_header, CmdSubmit, IsCmdSubmit, encode_cmd_submit,
  decode_cmd_submit, CmdUnlink, decode_cmd_unlink,
}

-- The bytes of an unlink command, as the protocol lays them out.
abbrev pub unlink_tail : CmdUnlink → List ℕ
unlink_tail c = u32_to_be_bytes c.unlink_seqnum ++ c.padding

abbrev pub IsCmdUnlink : CmdUnlink → Type 0
IsCmdUnlink c = IsU32 c.unlink_seqnum × (length c.padding ≡ 24)

IsI32-i32_from_be_bytes :
    (a b c d : ℕ) → IsBytes (a ∷ b ∷ c ∷ d ∷ []) → IsI32 (i32_from_be_bytes a b c d)
IsI32-i32_from_be_bytes a b c d h = ground arith

pub decode_header_exact :
    (buf : List ℕ) (h : UrbHeader)
    → IsBytes buf
    → length buf ≡ 20
    → decode_header buf ≡ ok h
    → IsUrbHeader h × (encode_header h [] ≡ buf)
unfolding decode_header encode_header
decode_header_exact
      (a ∷ b ∷ c ∷ d ∷ e ∷ f ∷ g ∷ h ∷ i ∷ j ∷ k ∷ l ∷ m ∷ n ∷ o ∷ p ∷ q ∷ r ∷ s ∷ t ∷ []) x bs long
      decoded =
    let made : UrbHeader = record {
      command = u32_from_be_bytes a b c d;
      seqnum = u32_from_be_bytes e f g h;
      devid = u32_from_be_bytes i j k l;
      direction = u32_from_be_bytes m n o p;
      ep = u32_from_be_bytes q r s t;
    } in
    let same : made ≡ x = ground arith in
    subst
      (λ z.
        IsUrbHeader z
        × (encode_header z []
            ≡ a ∷ b ∷ c ∷ d ∷ e ∷ f ∷ g ∷ h ∷ i ∷ j ∷ k ∷ l ∷ m ∷ n ∷ o ∷ p ∷ q ∷ r ∷ s ∷ t ∷ []))
      same ((omega arith, omega arith, omega arith, omega arith, omega arith), ground arith)
decode_header_exact _ x bs long decoded = absurd (omega arith)

pub decode_cmd_submit_exact :
    (buf : List ℕ) (cmd : CmdSubmit)
    → IsBytes buf
    → length buf ≡ 28
    → decode_cmd_submit buf ≡ ok cmd
    → IsCmdSubmit cmd × (encode_cmd_submit cmd [] ≡ buf)
unfolding decode_cmd_submit encode_cmd_submit
decode_cmd_submit_exact
      (a ∷ b ∷ c ∷ d ∷ e ∷ f ∷ g ∷ h ∷ i ∷ j ∷ k ∷ l ∷ m ∷ n ∷ o ∷ p ∷ q ∷ r ∷ s ∷ t ∷ setup) x bs
      long decoded =
    let made : CmdSubmit = record {
      transfer_flags = u32_from_be_bytes a b c d;
      transfer_buffer_length = i32_from_be_bytes e f g h;
      start_frame = i32_from_be_bytes i j k l;
      number_of_packets = i32_from_be_bytes m n o p;
      interval = i32_from_be_bytes q r s t;
      setup = take 8 setup;
    } in
    let same : made ≡ x = ground arith in
    let eight : take 8 setup ≡ setup = take-length_le 8 setup (omega arith) in
    subst
      (λ z.
        IsCmdSubmit z
        × (encode_cmd_submit z []
            ≡ a ∷ b ∷ c ∷ d ∷ e ∷ f ∷ g ∷ h ∷ i ∷ j ∷ k ∷ l ∷ m ∷ n ∷ o ∷ p ∷ q ∷ r ∷ s ∷ t
              ∷ setup))
      same
      (
        (
          omega arith,
          IsI32-i32_from_be_bytes e f g h (ground arith),
          IsI32-i32_from_be_bytes i j k l (ground arith),
          IsI32-i32_from_be_bytes m n o p (ground arith),
          IsI32-i32_from_be_bytes q r s t (ground arith),
          rw eight (omega arith),
        ),
        rw eight (
            ground (
              arith,
              i32_bytes_round e f g h,
              i32_bytes_round i j k l,
              i32_bytes_round m n o p,
              i32_bytes_round q r s t,
            )),
      )
decode_cmd_submit_exact _ x bs long decoded = absurd (omega arith)

pub decode_cmd_unlink_exact :
    (buf : List ℕ) (cmd : CmdUnlink)
    → IsBytes buf
    → length buf ≡ 28
    → decode_cmd_unlink buf ≡ ok cmd
    → IsCmdUnlink cmd × (unlink_tail cmd ≡ buf)
unfolding decode_cmd_unlink
decode_cmd_unlink_exact (a ∷ b ∷ c ∷ d ∷ rest) x bs long decoded =
    let made : CmdUnlink = record {
      unlink_seqnum = u32_from_be_bytes a b c d;
      padding = take 24 rest;
    } in
    let same : made ≡ x = ground arith in
    let all : take 24 rest ≡ rest = take-length_le 24 rest (omega arith) in
    subst (λ z. IsCmdUnlink z × (unlink_tail z ≡ a ∷ b ∷ c ∷ d ∷ rest)) same
      ((omega arith, rw all (omega arith)), rw all (ground arith))
decode_cmd_unlink_exact _ x bs long decoded = absurd (omega arith)

-- An unlink command comes back from its bytes.
pub decode_cmd_unlink-unlink_tail :
    (cmd : CmdUnlink) → IsCmdUnlink cmd → decode_cmd_unlink (unlink_tail cmd) ≡ ok cmd
unfolding decode_cmd_unlink
decode_cmd_unlink-unlink_tail cmd (fits, pad) =
    rw (u32_be_round cmd.unlink_seqnum fits, pad, take-length_le 24 cmd.padding (omega arith))
      (ground arith)
