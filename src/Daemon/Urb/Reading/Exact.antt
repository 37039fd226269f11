-- ===== src/Daemon/Urb/Reading/Exact.antt =====
-- The requests that the loop reads are exactly the bytes it was sent.
use usbipd_darwin.Common.{
  ℕ, List, [], ◌++◌, not, ◌&&◌, ◌≡◌, refl, ap, sym, ◌∙◌, arith, ok, err, Result-cases, Bool-cases,
  inl, inr, ◌⊎◌, nat_eq, ◌==◌, ltb, leb, length, take, drop, slice, All-take, All-drop, take-drop,
  take-length_le, length-take, length-drop, append_assoc, append-nil, subst,
}
use usbipd_darwin.Common.Words.{IsBytes, IsU8}
use usbipd_darwin.Proto.Urb.Messages.{
  UrbHeader, IsUrbHeader, encode_header, encode_cmd_submit, decode_header, decode_cmd_submit,
  decode_cmd_unlink, usbip_cmd_submit, usbip_cmd_unlink,
}
use usbipd_darwin.Proto.Urb.Exact.{
  unlink_tail, decode_header_exact, decode_cmd_submit_exact, decode_cmd_unlink_exact,
}
use usbipd_darwin.Daemon.Conn.{Conn, ReadError, read_exact, unexpected_eof, read_failed}
use usbipd_darwin.Daemon.Urb.Requests.{
  Request, submit, unlink, disconnect, fail, devid_mismatch, unknown_command, read_urb_header,
  decode_urb_header, decode_submit, decode_unlink, read_out_payload, buffer_length, dir_in,
  read_submit, read_unlink, dispatch, read_request,
}
use usbipd_darwin.Daemon.Urb.Reading.{IsRequest, IsEnd, request_bytes}

-- A read takes the first bytes, or ends as the stream does.
read_exact-cases :
    (n : ℕ) (c : Conn)
    → ((c' : Conn) × (read_exact n c ≡ (ok (take n c.input), c'))
        × (c'.input ≡ drop n c.input)
        × (length (take n c.input) ≡ n))
      ⊎ ((c' : Conn) × (read_exact n c ≡ (err c.ending, c')))
unfolding read_exact
read_exact-cases n c = elim (Bool-cases (leb n (length c.input))) [
  | inl enough ↦ inl (
    record c { input = drop n c.input },
    ground (arith, enough),
    refl,
    ground (arith, length-take n c.input, enough),
  )
  | inr short ↦ inr (record c { input = [] }, ground (arith, short))
]

-- The request, if it is one, and what is left are the bytes there were.
abbrev pub IsExact : ℕ → List ℕ → Request × Conn → Type 0
IsExact devid buf (r, c') =
    IsEnd r ⊎ (IsRequest devid r × (buf ≡ request_bytes r ++ c'.input) × IsBytes c'.input)

at_end :
    (devid : ℕ) (buf : List ℕ) (r : Request × Conn) (e : Request) (c' : Conn)
    → r ≡ (e, c')
    → IsEnd e
    → IsExact devid buf r
at_end devid buf r e c' same ends = subst (IsExact devid buf) (sym same) (inl ends)

at_request :
    (devid : ℕ) (buf : List ℕ) (r : Request × Conn) (q : Request) (c' : Conn)
    → r ≡ (q, c')
    → IsRequest devid q
    → buf ≡ request_bytes q ++ c'.input
    → IsBytes c'.input
    → IsExact devid buf r
at_request devid buf r q c' same fits exact left =
    subst (IsExact devid buf) (sym same) (inr (fits, exact, left))

pub Ending-cases : (e : ReadError) → (e ≡ unexpected_eof) ⊎ (e ≡ read_failed)
Ending-cases unexpected_eof = inl refl
Ending-cases read_failed = inr refl

module _ (devid : ℕ) (basic : UrbHeader) (header_buf : List ℕ) (c : Conn)
    (bytes : IsBytes header_buf) (long : length header_buf ≡ 48)
    (decoded : decode_header (slice header_buf 0 20) ≡ ok basic) (rest : IsBytes c.input) where
  front : IsUrbHeader basic × (encode_header basic [] ≡ take 20 header_buf)
  front =
      decode_header_exact (take 20 header_buf) basic (All-take IsU8 20 header_buf bytes)
        (omega (arith, length-take 20 header_buf)) decoded

  tail-IsBytes : IsBytes (drop 20 header_buf)
  tail-IsBytes = All-drop IsU8 20 header_buf bytes

  tail_all : slice header_buf 20 48 ≡ drop 20 header_buf
  tail_all = take-length_le 28 (drop 20 header_buf) (omega (arith, length-drop 20 header_buf))

  whole : (tail : List ℕ) → tail ≡ drop 20 header_buf → encode_header basic [] ++ tail ≡ header_buf
  whole tail same = rw (front.1, same) (take-drop 20 header_buf)

  abbrev buf : List ℕ
  buf = header_buf ++ c.input

  read_unlink-exact :
      basic.devid ≡ devid
      → basic.command ≡ usbip_cmd_unlink
      → IsExact devid buf (read_unlink basic header_buf, c)
  unfolding read_unlink request_bytes
  read_unlink-exact ours command =
      elim (Result-cases (decode_cmd_unlink (slice header_buf 20 48))) [
        | inr (e, bad) ↦
            at_end devid buf (read_unlink basic header_buf, c) (fail (decode_unlink e)) c
              (ground (arith, bad)) tt
        | inl (cmd, fine) ↦
            let (fits, same) =
              decode_cmd_unlink_exact (drop 20 header_buf) cmd tail-IsBytes
                (omega (arith, length-drop 20 header_buf))
                (sym (ap decode_cmd_unlink tail_all) ∙ fine) in
            at_request devid buf (read_unlink basic header_buf, c) (unlink basic cmd) c
              (ground (arith, fine))
              (
                front.0,
                ours,
                command,
                fits,
                subst (λ b. IsBytes (drop 4 b)) (sym same)
                    (All-drop IsU8 4 (drop 20 header_buf) tail-IsBytes),
              )
              (ap (λ b. b ++ c.input) (sym (whole (unlink_tail cmd) same))) rest
      ]

  read_submit-exact :
      basic.devid ≡ devid
      → basic.command ≡ usbip_cmd_submit
      → IsExact devid buf (read_submit basic header_buf c)
  unfolding read_submit request_bytes
  read_submit-exact ours command =
      elim (Result-cases (decode_cmd_submit (slice header_buf 20 48))) [
        | inr (e, bad) ↦
            at_end devid buf (read_submit basic header_buf c) (fail (decode_submit e)) c
              (ground (arith, bad)) tt
        | inl (cmd, fine) ↦
            let (fits, same) =
              decode_cmd_submit_exact (drop 20 header_buf) cmd tail-IsBytes
                (omega (arith, length-drop 20 header_buf))
                (sym (ap decode_cmd_submit tail_all) ∙ fine) in
            let head = whole (encode_cmd_submit cmd []) same in
            elim (Bool-cases (not (dir_in basic) && ltb 0 (buffer_length cmd))) [
              | inr none_out ↦
                  at_request devid buf (read_submit basic header_buf c) (submit basic cmd []) c
                    (ground (arith, fine, none_out))
                    (front.0, ours, command, fits, ground (arith, none_out), tt)
                    (ap (λ b. b ++ c.input) (sym head) ∙ simp (append_assoc, append-nil)) rest
              | inl out ↦ elim (read_exact-cases (buffer_length cmd) c) [
                | inr (c', cut) ↦
                    at_end devid buf (read_submit basic header_buf c)
                      (fail (read_out_payload c.ending)) c' (ground (arith, fine, out, cut)) tt
                | inl (c', read, left, len) ↦
                    let payload = take (buffer_length cmd) c.input in
                    at_request devid buf (read_submit basic header_buf c) (submit basic cmd payload)
                      c' (ground (arith, fine, out, read))
                      (
                        front.0,
                        ours,
                        command,
                        fits,
                        ground (arith, out, len),
                        All-take IsU8 (buffer_length cmd) c.input rest,
                      )
                      (ap (λ b. b ++ c.input) (sym head)
                        ∙ ap (λ b. (encode_header basic [] ++ encode_cmd_submit cmd []) ++ b)
                            (sym (take-drop (buffer_length cmd) c.input)
                              ∙ ap (λ b. payload ++ b) (sym left))
                        ∙ simp append_assoc)
                      (subst IsBytes (sym left) (All-drop IsU8 (buffer_length cmd) c.input rest))
              ]
            ]
      ]

  dispatch_exact : IsExact devid buf (dispatch devid basic header_buf c)
  unfolding dispatch
  dispatch_exact = elim (Bool-cases (basic.devid == devid)) [
    | inr other ↦
        at_end devid buf (dispatch devid basic header_buf c) (fail devid_mismatch) c
          (ground (arith, other)) tt
    | inl ours ↦ elim (Bool-cases (basic.command == usbip_cmd_submit)) [
      | inl is_submit ↦
          let same : dispatch devid basic header_buf c ≡ read_submit basic header_buf c =
            ground (arith, ours, is_submit) in
          subst (IsExact devid buf) (sym same) (read_submit-exact (ground arith) (ground arith))
      | inr not_submit ↦ elim (Bool-cases (basic.command == usbip_cmd_unlink)) [
        | inl is_unlink ↦
            let same : dispatch devid basic header_buf c ≡ (read_unlink basic header_buf, c) =
              ground (arith, ours, not_submit, is_unlink) in
            subst (IsExact devid buf) (sym same) (read_unlink-exact (ground arith) (ground arith))
        | inr not_unlink ↦
            at_end devid buf (dispatch devid basic header_buf c)
              (fail (unknown_command basic.command)) c
              (ground (arith, ours, not_submit, not_unlink)) tt
      ]
    ]
  ]

-- One round on a stream of bytes, whatever they are and however the stream ends: it gives an end, or a
-- submit or an unlink with fields of their widths, the loop's devid, and exactly the payload that
-- belongs to the command; and the bytes of that request and those that are left are the bytes there
-- were.
pub read_request_exact :
    (devid : ℕ) (c : Conn) → IsBytes c.input → IsExact devid c.input (read_request devid c)
unfolding read_request
read_request_exact devid c bytes = elim (read_exact-cases 48 c) [
  | inr (c', cut) ↦ elim (Ending-cases c.ending) [
    | inl eof ↦
        at_end devid c.input (read_request devid c) disconnect c' (ground (arith, cut, eof)) tt
    | inr broken ↦
        at_end devid c.input (read_request devid c) (fail (read_urb_header read_failed)) c'
          (ground (arith, cut, broken)) tt
  ]
  | inl (c', read, left, len) ↦
      let header_buf = take 48 c.input in
      let basics = All-take IsU8 48 c.input bytes in
      elim (Result-cases (decode_header (take 20 header_buf))) [
        | inr (e, bad) ↦
            at_end devid c.input (read_request devid c) (fail (decode_urb_header e)) c'
              (ground (arith, read, bad)) tt
        | inl (basic, fine) ↦
            let same : read_request devid c ≡ dispatch devid basic header_buf c' =
              ground (arith, read, fine) in
            let all : header_buf ++ c'.input ≡ c.input =
              ap (λ b. header_buf ++ b) left ∙ take-drop 48 c.input in
            subst (λ b. IsExact devid b (read_request devid c)) all
              (subst (IsExact devid (header_buf ++ c'.input)) (sym same) (
                dispatch_exact devid basic header_buf c' basics len fine
                  (subst IsBytes (sym left) (All-drop IsU8 48 c.input bytes))))
      ]
]
