-- ===== src/Daemon/Session/Listed.antt =====
-- A device that a client has read from the list can be imported: `handle_devlist` and `handle_import` of
-- crates/usbipd/src/daemon.rs agree.
use mathlib.Core.List.{Memᴰ}
use usbipd_darwin.Common.{
  ℕ, suc, List, [], ◌∷◌, ◌++◌, none, some, Bool, true, false, ◌≡◌, refl, ap, sym, subst, ◌∙◌, arith,
  ok, inl, inr, Bool-cases, filter, find, ◌==◌, text_eq, text_beq_iff, take, drop, length, leb,
  le→leb, length-append, take-append, drop-append, append-nil,
}
use usbipd_darwin.Common.Map
use usbipd_darwin.Proto.Op.Device.{write_fixed_str, decode_req_import_busid, encode_rep_import_ok}
use usbipd_darwin.Proto.Op.Layout.{write_fixed_str-append, length-fixed_str}
use usbipd_darwin.Proto.Op.Texts.{FitsIn, decode_req_import_busid-write_fixed_str}
use usbipd_darwin.Host.Devices.{UsbDevice, list_devices}
use usbipd_darwin.Host.Open.{OpenedDevice, open_busid, descriptor_snapshot}
use usbipd_darwin.Host.Open.Numbers.{open_busid-snapshot}
use usbipd_darwin.Daemon.Policy.{permits, filter_devices}
use usbipd_darwin.Daemon.Attach.{try_attach}
use usbipd_darwin.Daemon.Wire.{to_exported}
use usbipd_darwin.Daemon.Session.Flow.{World, go}
use usbipd_darwin.Daemon.Session.Handlers.{
  Host, describe, open_claimed, claim_and_open, handle_import,
}

filter-Mem :
    (p : UsbDevice → Bool) (d : UsbDevice) (ds : List UsbDevice)
    → Memᴰ d (filter p ds)
    → Memᴰ d ds × (p d ≡ true)
filter-Mem p d [] m = elim m [ ]
filter-Mem p d (x ∷ ds) m = elim (Bool-cases (p x)) [
  | inr dropped ↦
      let same : filter p (x ∷ ds) ≡ filter p ds = ground (arith, dropped) in
      let (there, fine) = filter-Mem p d ds (subst (Memᴰ d) same m) in (Memᴰ.tail there, fine)
  | inl kept ↦
      let same : filter p (x ∷ ds) ≡ x ∷ filter p ds = ground (arith, kept) in
      first_or_rest kept (λ there. filter-Mem p d ds there) (subst (Memᴰ d) same m)
]
  where
    first_or_rest :
        p x ≡ true
        → (Memᴰ d (filter p ds) → Memᴰ d ds × (p d ≡ true))
        → Memᴰ d (x ∷ filter p ds)
        → Memᴰ d (x ∷ ds) × (p d ≡ true)
    first_or_rest kept later (Memᴰ.head e) = (Memᴰ.head e, ap p e ∙ kept)
    first_or_rest kept later (Memᴰ.tail there) =
        let (m', fine) = later there in (Memᴰ.tail m', fine)

find-only :
    (d : UsbDevice) (ds : List UsbDevice)
    → Memᴰ d ds
    → ((a : UsbDevice) → Memᴰ a ds → a.busid ≡ d.busid → a ≡ d)
    → find (λ x. x.busid == d.busid) ds ≡ some d
find-only d [] m only = elim m [ ]
find-only d (x ∷ ds) m only = elim (Bool-cases (x.busid == d.busid)) [
  | inl same ↦
      let one : x ≡ d = only x (Memᴰ.head refl) ((text_beq_iff x.busid d.busid).0 same) in
      ground (arith, same, one)
  | inr other ↦
      ground (arith, other, find-only d ds (behind m other) (λ a there. only a (Memᴰ.tail there)))
]
  where
    behind : Memᴰ d (x ∷ ds) → (x.busid == d.busid) ≡ false → Memᴰ d ds
    behind (Memᴰ.head e) other = absurd (ground (arith, other, e, text_beq_iff x.busid d.busid))
    behind (Memᴰ.tail there) other = there

length-request : (busid : List ℕ) → length (write_fixed_str [] busid 32) ≡ 32
length-request busid = rw (write_fixed_str-append [] busid 32) (length-fixed_str busid 32)

-- The claim of a free device that opens, with a connection that takes the reply.
claim_and_open-goes :
    (host : Host) (peer busid : List ℕ) (listed : UsbDevice) (w : World) (dev : OpenedDevice)
    (left : ℕ)
    → Map.get busid w.state.attached ≡ none
    → open_busid host.usb busid ≡ ok dev
    → w.conn.writes_left ≡ suc left
    → let desc = describe listed (descriptor_snapshot host.usb dev) in
      claim_and_open host peer busid listed w ≡ (
        go (desc, dev),
        record w {
          conn = record w.conn {
            sent = w.conn.sent ++ encode_rep_import_ok [] (to_exported desc);
            writes_left = left;
          };
          state = record w.state { attached = Map.insert busid peer w.state.attached };
        },
      )
unfolding claim_and_open open_claimed try_attach
claim_and_open-goes host peer busid listed w dev left free opens writes =
    ground (arith, free, opens, writes)

-- A device that the list for a client shows, and whose busid no other listed device has and is UTF-8 of
-- at most 32 bytes without a zero byte: while nobody holds it, it opens, and the connection takes another
-- write, the client that sends the busid in its 32 bytes enters URB mode with the device that was
-- opened. It then holds the device, has one reply, about a device with the same busid and ids, and what
-- it sent behind the busid is still to read.
pub handle_import-listed :
    (host : Host) (peer : List ℕ) (w : World) (devices : List UsbDevice) (d : UsbDevice)
    (dev : OpenedDevice) (left : ℕ) (rest : List ℕ)
    → list_devices host.listed ≡ ok devices
    → Memᴰ d (filter_devices w.state.policy devices)
    → ((a : UsbDevice) → Memᴰ a devices → a.busid ≡ d.busid → a ≡ d)
    → FitsIn 32 d.busid
    → w.conn.input ≡ write_fixed_str [] d.busid 32 ++ rest
    → Map.get d.busid w.state.attached ≡ none
    → open_busid host.usb d.busid ≡ ok dev
    → w.conn.writes_left ≡ suc left
    → (desc : UsbDevice) × (v : World) × (handle_import host peer w ≡ (go (desc, dev), v))
      × (desc.busid ≡ d.busid)
      × (desc.vendor_id ≡ d.vendor_id)
      × (desc.product_id ≡ d.product_id)
      × (Map.get d.busid v.state.attached ≡ some peer)
      × (v.conn.sent ≡ w.conn.sent ++ encode_rep_import_ok [] (to_exported desc))
      × (v.conn.input ≡ rest)
unfolding handle_import filter_devices
handle_import-listed host peer w devices d dev left rest listed shown only fits input free opens
      writes =
    let (there, permitted) =
      filter-Mem (λ a. permits w.state.policy a.vendor_id a.product_id) d devices shown in
    let found = find-only d devices there only in
    let u : World = record w { conn = record w.conn { input = rest } } in
    let desc = describe d (descriptor_snapshot host.usb dev) in
    let (_, _, _, same) = open_busid-snapshot host.usb d.busid dev opens in
    let claim = claim_and_open-goes host peer d.busid d u dev left free opens writes in
    let request = write_fixed_str [] d.busid 32 in
    let front : take 32 w.conn.input ≡ request =
      ap (take 32) input ∙ take-append 32 request rest (sym (length-request d.busid)) in
    let behind : drop 32 w.conn.input ≡ rest =
      ap (drop 32) input ∙ drop-append 32 request rest (sym (length-request d.busid)) in
    let long : leb 32 (length w.conn.input) ≡ true =
      le→leb 32 (length w.conn.input)
        (omega (arith, ap length input, length-append request rest, length-request d.busid)) in
    let read : decode_req_import_busid request ≡ ok d.busid =
      ap decode_req_import_busid (sym (append-nil request))
      ∙ decode_req_import_busid-write_fixed_str d.busid [] fits in
    (
      desc,
      record u {
        conn = record u.conn {
          sent = w.conn.sent ++ encode_rep_import_ok [] (to_exported desc);
          writes_left = left;
        };
        state = record w.state { attached = Map.insert d.busid peer w.state.attached };
      },
      ground (arith, long, front, behind, read, listed, found, permitted, claim),
      unfold describe in same,
      unfold describe in refl,
      unfold describe in refl,
      ground (arith, Map.get-insert d.busid d.busid peer w.state.attached, Map.beq_refl d.busid),
      refl,
      refl,
    )
