-- ===== src/Tests/Transfer.antt =====
-- Transfers on an opened device of crates/host-mac/src/lib.rs.
use mathlib.Core.List.{Memᴰ}
use usbipd_darwin.Common.{
  ℕ, zero, suc, sym, ◌∙◌, ◌%◌, ◌≤◌, List, [], ◌∷◌, none, some, true, false, ok, err, ◌≡◌, ◌≢◌, ◌⊎◌,
  refl, arith, length, text_eq, nat_eq, pos,
}
use usbipd_darwin.Common.Map
use usbipd_darwin.Host.Setup.{SetupPacket, is_set_interface}
use usbipd_darwin.Host.Open.{OpenedDevice, EndpointEntry, HostError, bulk}
use usbipd_darwin.Host.Transfer.Calls.{
  Answers, Use, Call, bulk_pipe, EndpointDescriptor, InterfaceDescriptor, transfer_in, ask, try_ask,
  complete,
}
use usbipd_darwin.Host.Transfer.Endpoints.{
  is_claimed, ensure_interface, ensure_endpoint, endpoint_kind, search_endpoint, active_endpoint,
  active_setting, kind_of,
}
use usbipd_darwin.Host.Transfer.Control.{control_transfer}
use usbipd_darwin.Host.Transfer.Transmit.{TransferResult, finish_in, data_transfer}
use usbipd_darwin.Host.Transfer.Sequence.{
  Operation, on_endpoint, operate, operate_all, control_transfer-interface,
}
use usbipd_darwin.Host.Transfer.Overlap.{Stage, looking, clears_endpoints, ready, overlap}
use usbipd_darwin.Host.Transfer.Overlap.Owned.{overlapped, overlap-owned}
use usbipd_darwin.Host.Transfer.Overlap.Stale.{overlap-stale}
use usbipd_darwin.Host.Transfer.Search.{search_endpoint-any_order}
use usbipd_darwin.Host.Transfer.Bounds.{Counts, data_transfer-in}
use usbipd_darwin.Daemon.Urb.Requests.{buffer_length}
use usbipd_darwin.Daemon.Urb.Reply.{transfer_result, outcome, epipe, eoverflow}
use usbipd_darwin.Daemon.Urb.Blocking.{carry_out, carry_out-exact}
use usbipd_darwin.Proto.Urb.Messages.{UrbHeader}
use usbipd_darwin.Host.Transfer.Calls.{set_alt_setting}
use usbipd_darwin.Tests.Samples.{
  stick_busid, quiet_usb, opened_stick, stick_opens, basic_header, submit_command,
}

-- nusb with the stick: interface 0 has a bulk endpoint into the host, which gives two bytes.
abbrev pub stick_answers : Answers
stick_answers = record {
  active_configuration = λ _. some (
      record {
        interface_number = 0;
        alternate_setting = 0;
        endpoints = record { address = 0x81; transfer_type = bulk_pipe } ∷ [];
      }
      ∷ []);
  done = λ _ _. ok tt;
  received = λ _ _. ok [];
  completed = λ _ _. record { actual_len = 2; result = ok (7 ∷ 8 ∷ []) };
  max_packet_size = λ _. 64;
  hash_order = λ numbers. numbers;
}

pub stick_answers_count : Counts stick_answers
stick_answers_count calls c received h = ground (arith, h)

abbrev pub fresh : Use
fresh = record { dev = opened_stick; calls = [] }

abbrev pub reading : List Operation
reading = on_endpoint 0x81 8 [] ∷ []

-- Behind the reading two more transfers start, one on an endpoint that is not open.
abbrev both : Map.Map ℕ Stage
both = (3, looking 0x81 0 bulk) ∷ (4, looking 0x02 1 bulk) ∷ []

abbrev turns : List ℕ
turns = 4 ∷ 3 ∷ 4 ∷ 4 ∷ 4 ∷ 4 ∷ 4 ∷ []

abbrev behind_both : OpenedDevice
behind_both = overlapped stick_answers opened_stick reading both turns

second_cached : Map.get 0x02 behind_both.endpoints ≡ some (record { iface_num = 1; kind = bulk })
unfolding overlap operate_all operate data_transfer endpoint_kind search_endpoint active_endpoint
    active_setting kind_of ensure_endpoint ensure_interface is_claimed ask try_ask complete
    finish_in Map.get Map.insert
second_cached = refl

overlap-owned_example : is_claimed 1 behind_both.interfaces ≡ true
overlap-owned_example =
    overlap-owned quiet_usb stick_answers stick_busid opened_stick reading both turns 0x02
      (record { iface_num = 1; kind = bulk }) stick_opens
      ((0x81, 0, bulk, refl), ((0x02, 1, bulk, refl), tt)) second_cached

-- The stick with its endpoint open.
abbrev in_use : Use
in_use = record fresh {
  dev = record opened_stick {
    interfaces = 0 ∷ [];
    endpoints = (0x81, record { iface_num = 0; kind = bulk }) ∷ [];
  };
}

second_missing : Map.get 0x02 in_use.dev.endpoints ≡ none
unfolding Map.get
second_missing = refl

first_claimed : is_claimed 0 in_use.dev.interfaces ≡ true
unfolding is_claimed
first_claimed = refl

overlap-stale_example :
    let s = overlap stick_answers (0 ∷ 0 ∷ 0 ∷ 1 ∷ 1 ∷ 1 ∷ 1 ∷ 0 ∷ []) (record {
      use_of = in_use;
      threads = (0, looking 0x02 0 bulk) ∷ (1, clears_endpoints 1) ∷ [];
    }) in
    (s.threads ≡ (0, ready) ∷ (1, ready) ∷ [])
    × (s.use_of.dev.endpoints ≡ (0x02, record { iface_num = 0; kind = bulk }) ∷ [])
    × (is_claimed 0 s.use_of.dev.interfaces ≡ false)
overlap-stale_example =
    overlap-stale stick_answers 0x02 0 1 bulk in_use (λ calls c. refl) second_missing first_claimed

-- SET_INTERFACE(0, 1) behind the reading.
abbrev set_interface : SetupPacket
set_interface = record {
  bm_request_type = 1;
  b_request = 11;
  w_value = 1;
  w_index = 0;
  w_length = 0;
}

selects : is_set_interface set_interface ≡ true
unfolding is_set_interface
selects = refl

control_transfer-interface_example :
    let (r, v) = control_transfer stick_answers set_interface [] in_use in
    ((r ≡ ok [])
        × (v.dev.alt_settings ≡ Map.insert 0 1 in_use.dev.alt_settings)
        × ((before : List Call) × (v.calls ≡ set_alt_setting 0 1 ∷ before)
            × (stick_answers.done before (set_alt_setting 0 1) ≡ ok tt))
      ⊎ (e : HostError) × (r ≡ err e) × (v.dev.alt_settings ≡ in_use.dev.alt_settings))
    × ((Map.get 0x81 v.dev.endpoints ≡ none)
        ⊎ (e : EndpointEntry) × (Map.get 0x81 v.dev.endpoints ≡ some e) × (e.iface_num ≢ 0))
control_transfer-interface_example =
    control_transfer-interface stick_answers set_interface [] in_use 0x81 selects

abbrev two_bytes : TransferResult
two_bytes = record { actual_length = 2; bytes = 7 ∷ 8 ∷ [] }

two_bytes_read : (data_transfer stick_answers 0x81 8 [] fresh).0 ≡ ok two_bytes
unfolding data_transfer endpoint_kind search_endpoint active_endpoint active_setting kind_of
    ensure_endpoint ensure_interface is_claimed ask try_ask complete finish_in Map.get Map.insert
two_bytes_read = refl

data_transfer-in_example :
    (length two_bytes.bytes ≤ 8)
    × (two_bytes.actual_length ≡ length two_bytes.bytes)
    × (n : ℕ) × (calls : List Call) × ((data_transfer stick_answers 0x81 8 [] fresh).1.calls
        ≡ transfer_in 0x81 n ∷ calls)
    × (8 ≤ n)
    × ((stick_answers.max_packet_size 0x81 ≡ 0) ⊎ (n % stick_answers.max_packet_size 0x81 ≡ 0))
data_transfer-in_example =
    data_transfer-in stick_answers 0x81 8 [] fresh two_bytes stick_answers_count refl two_bytes_read

abbrev pub in_header : UrbHeader
in_header = record basic_header { direction = 1; ep = 1 }

carry_out-exact_example :
    let t = (carry_out stick_answers in_header submit_command [] fresh).0 in
    let (status, actual_length, payload) =
      outcome true (buffer_length submit_command) (transfer_result true [] t) in
    ((status ≡ pos 0)
      × (actual_length ≡ pos (length payload))
      × (length payload ≤ buffer_length submit_command))
    ⊎ (status ≡ epipe)
    ⊎ (in_header.ep ≡ 0) × (status ≡ eoverflow)
carry_out-exact_example =
    carry_out-exact stick_answers in_header submit_command [] fresh stick_answers_count refl
      (omega arith)

-- The stick's interface 0, walked behind and in front of one without endpoints.
abbrev two_interfaces : List InterfaceDescriptor
two_interfaces =
    record {
      interface_number = 0;
      alternate_setting = 0;
      endpoints = record { address = 0x81; transfer_type = bulk_pipe } ∷ [];
    }
    ∷ record { interface_number = 1; alternate_setting = 0; endpoints = [] }
    ∷ []

only_first :
    (n : ℕ) (e : EndpointDescriptor) → active_endpoint [] two_interfaces 0x81 n ≡ some e → n ≡ 0
unfolding active_endpoint active_setting Map.get
only_first zero e found = refl
only_first (suc zero) e found = absurd (ground (arith, found))
only_first (suc (suc n)) e found = absurd (ground (arith, found))

swap_Mem : (a b n : ℕ) → Memᴰ n (a ∷ b ∷ []) → Memᴰ n (b ∷ a ∷ [])
swap_Mem a b n (Memᴰ.head e) = Memᴰ.tail (Memᴰ.head e)
swap_Mem a b n (Memᴰ.tail (Memᴰ.head e)) = Memᴰ.head e
swap_Mem a b n (Memᴰ.tail (Memᴰ.tail m)) = elim m [ ]

search_endpoint-any_order_example :
    search_endpoint [] two_interfaces 0x81 (0 ∷ 1 ∷ [])
    ≡ search_endpoint [] two_interfaces 0x81 (1 ∷ 0 ∷ [])
search_endpoint-any_order_example =
    search_endpoint-any_order [] two_interfaces 0x81 (0 ∷ 1 ∷ []) (1 ∷ 0 ∷ []) (swap_Mem 0 1)
      (swap_Mem 1 0) (λ n m a b first second. only_first n a first ∙ sym (only_first m b second))
