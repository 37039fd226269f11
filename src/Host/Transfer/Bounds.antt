-- ===== src/Host/Transfer/Bounds.antt =====
-- The sizes of a data transfer of crates/host-mac/src/lib.rs.
use native.Mathlib.Nat.{lt-div-mul-add, div-mul-le_self, mul-mod_left}
use usbipd_darwin.Common.{
  ℕ, ◌+◌, ◌-◌, ◌*◌, ◌/◌, ◌%◌, ◌≤◌, ◌<◌, min, max, List, ◌∷◌, true, ok, ◌≡◌, ◌⊎◌, inl, inr, sym,
  arith, length, take, length-take, ltb, Bool-cases, Nat-cases, Result-cases,
}
use usbipd_darwin.Host.Transfer.Calls.{Call, transfer_in, Completion, Answers, Use, complete}
use usbipd_darwin.Host.Transfer.Endpoints.{endpoint_kind, ensure_endpoint}
use usbipd_darwin.Host.Transfer.Transmit.{
  TransferResult, into_host, padded_len, in_buffer, finish_in, data_transfer,
}

-- For a packet size that is not zero, the buffer of an IN transfer holds what was asked for, at least
-- one packet, and whole packets only; it is less than one packet longer than it has to be.
pub padded_len_lem :
    (size mps : ℕ)
    → 0 < mps
    → (size ≤ padded_len size mps)
      × (mps ≤ padded_len size mps)
      × (padded_len size mps % mps ≡ 0)
      × (padded_len size mps < max size 1 + mps)
unfolding padded_len
padded_len_lem size mps h =
    let q = (size + (mps - 1)) / mps in
    let above = lt-div-mul-add {a = size + (mps - 1)} h in
    let below = div-mul-le_self (size + (mps - 1)) mps in
    elim (Nat-cases q) [
      | inl none_left ↦
          let one : max q 1 ≡ 1 = omega (arith, none_left) in
          let zero_times : q * mps ≡ 0 = rw none_left (omega arith) in
          rw one
            (omega (arith, above, zero_times), omega arith, mul-mod_left 1 mps, omega (arith, h))
      | inr (p, some_left) ↦
          let same : max q 1 ≡ q = omega (arith, some_left) in
          let times : q * mps ≡ p * mps + mps = rw some_left (omega arith) in
          rw same (
            omega (arith, above, times, below),
            omega (arith, times),
            mul-mod_left q mps,
            omega (arith, below, h),
          )
    ]

finish_in_lem :
    (size : ℕ) (c : Completion) (r : TransferResult)
    → ((received : List ℕ) → c.result ≡ ok received → length received ≡ c.actual_len)
    → finish_in size c ≡ ok r
    → (length r.bytes ≡ min c.actual_len size) × (r.actual_length ≡ length r.bytes)
unfolding finish_in
finish_in_lem size c r counts h = elim (Result-cases c.result) [
  | inr (e, failed) ↦ absurd (ground arith)
  | inl (received, fine) ↦
      let usable : ℕ = min c.actual_len size in
      let same : r ≡ record { actual_length = usable; bytes = take usable received } =
        ground arith in
      let exact : length (take usable received) ≡ usable =
        omega (arith, length-take usable received, counts received fine) in
      rw same (exact, sym exact)
]

in_buffer_lem :
    (size mps : ℕ) → (size ≤ in_buffer size mps) × ((mps ≡ 0) ⊎ (in_buffer size mps % mps ≡ 0))
unfolding in_buffer
in_buffer_lem size mps = elim (Bool-cases (ltb 0 mps)) [
  | inl some_packet ↦
      let (holds, _, whole, _) = padded_len_lem size mps (ground (arith, some_packet)) in
      rw some_packet (holds, inr whole)
  | inr no_packet ↦ (ground (arith, no_packet), inl (ground (arith, no_packet)))
]

-- What nusb documents of a completed transfer: as many bytes as it counts.
abbrev pub Counts : Answers → Type 0
Counts nusb =
    (calls : List Call) (c : Call) (received : List ℕ)
    → (nusb.completed calls c).result ≡ ok received
    → length received ≡ (nusb.completed calls c).actual_len

-- An IN transfer that succeeds, where nusb hands over as many bytes as it counts: it gives at most the
-- bytes that were asked for and counts exactly those; the last call was the transfer, into a buffer
-- that holds the bytes asked for and is a multiple of the endpoint's packet size, if that is not zero.
pub data_transfer-in :
    (nusb : Answers) (ep_addr size : ℕ) (out_data : List ℕ) (u : Use) (r : TransferResult)
    → Counts nusb
    → into_host ep_addr ≡ true
    → (data_transfer nusb ep_addr size out_data u).0 ≡ ok r
    → (length r.bytes ≤ size)
      × (r.actual_length ≡ length r.bytes)
      × (n : ℕ) × (calls : List Call) × ((data_transfer nusb ep_addr size out_data u).1.calls
          ≡ transfer_in ep_addr n ∷ calls)
      × (size ≤ n)
      × ((nusb.max_packet_size ep_addr ≡ 0) ⊎ (n % nusb.max_packet_size ep_addr ≡ 0))
unfolding data_transfer complete
data_transfer-in nusb ep_addr size out_data u r counts into h =
    elim (Result-cases (endpoint_kind nusb ep_addr u).0) [
      | inr (e, failed) ↦ absurd (ground arith)
      | inl (kind, found) ↦
          let w : Use = (endpoint_kind nusb ep_addr u).1 in
          let v : Use = (ensure_endpoint nusb ep_addr kind w).1 in
          elim (Result-cases (ensure_endpoint nusb ep_addr kind w).0) [
            | inr (e, failed) ↦ absurd (ground arith)
            | inl (entry, opened) ↦
                let n : ℕ = in_buffer size (nusb.max_packet_size ep_addr) in
                let c : Completion = nusb.completed v.calls (transfer_in ep_addr n) in
                let ended : finish_in size c ≡ ok r = ground arith in
                let (holds, whole) = in_buffer_lem size (nusb.max_packet_size ep_addr) in
                let (counted, exact) =
                  finish_in_lem size c r (counts v.calls (transfer_in ep_addr n)) ended in
                (
                  ground (arith, counted, exact),
                  ground (arith, exact, counted),
                  n,
                  v.calls,
                  ground arith,
                  holds,
                  whole,
                )
          ]
    ]
