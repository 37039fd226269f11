-- ===== src/Host/Transfer/Transmit.antt =====
-- `data_transfer` of crates/host-mac/src/lib.rs.
use usbipd_darwin.Common.{
  ℕ, ◌+◌, ◌-◌, ◌*◌, ◌/◌, min, max, List, [], Bool, not, Result, ok, err, ◌==◌, nat_eq, ltb,
  if◌then◌else◌, take, bit_and,
}
use usbipd_darwin.Host.Open.{HostError}
use usbipd_darwin.Host.Transfer.Calls.{
  transfer_in, transfer_out, Completion, Answers, T, ◌>>=◌, ◌>>◌, from_transfer, complete,
}
use usbipd_darwin.Host.Transfer.Endpoints.{endpoint_kind, ensure_endpoint}

pub record TransferResult : Type 0 where
  pub actual_length : ℕ
  pub bytes : List ℕ

abbrev pub into_host : ℕ → Bool
into_host ep_addr = not (bit_and ep_addr 0x80 == 0)

-- `length.div_ceil(mps).max(1) * mps`
unfoldable pub padded_len : ℕ → ℕ → ℕ
padded_len size mps = max ((size + (mps - 1)) / mps) 1 * mps

-- The size of the buffer of an IN transfer.
unfoldable pub in_buffer : ℕ → ℕ → ℕ
in_buffer size mps = if ltb 0 mps then padded_len size mps else size

-- What comes of a completion.
unfoldable pub finish_in : ℕ → Completion → Result TransferResult HostError
finish_in size c = elim (from_transfer c.result) as (λ _. Result TransferResult HostError) [
  | err e ↦ err e
  | ok received ↦
      let usable = min c.actual_len size in
      ok (record { actual_length = usable; bytes = take usable received })
]

unfoldable pub finish_out : Completion → Result TransferResult HostError
finish_out c = elim (from_transfer c.result) as (λ _. Result TransferResult HostError) [
  | err e ↦ err e
  | ok _ ↦ ok (record { actual_length = c.actual_len; bytes = [] })
]

module _ (nusb : Answers) where
  transfer : ℕ → ℕ → List ℕ → T TransferResult
  unfolding complete
  transfer ep_addr size out_data =
      if into_host ep_addr
      then (do
        c ← complete nusb (transfer_in ep_addr (in_buffer size (nusb.max_packet_size ep_addr)))
        λ u. (finish_in size c, u))
      else (do c ← complete nusb (transfer_out ep_addr out_data); λ u. (finish_out c, u))

  unfoldable pub data_transfer : ℕ → ℕ → List ℕ → T TransferResult
  unfolding endpoint_kind ensure_endpoint transfer
  data_transfer ep_addr size out_data = do
    kind ← endpoint_kind nusb ep_addr
    ensure_endpoint nusb ep_addr kind
    transfer ep_addr size out_data
