-- ===== src/Daemon/Session/Devlist.antt =====
-- What a session answers to its first request.
use usbipd_darwin.Common.{
  ℕ, suc, ◌<◌, ◌^◌, List, [], ◌++◌, ◌≡◌, ◌≢◌, ◌⊎◌, refl, ap, ◌∙◌, sym, append-nil, arith, ok, true,
  nat_beq_iff, map, ◌==◌, nat_eq, take, drop, length, leb, All, if◌then◌else◌, not, take-append,
  drop-append, le→leb, length-append,
}
use usbipd_darwin.Proto.Op.Header
use usbipd_darwin.Proto.Op.Header.{
  OpHeader, IsOpHeader, usbip_version, op_req_devlist, op_rep_devlist, op_req_import,
}
use usbipd_darwin.Proto.Op.RoundTrip.{decode-encode_header}
use usbipd_darwin.Host.Devices.{UsbDevice, list_devices}
use usbipd_darwin.Host.Open.{OpenedDevice}
use usbipd_darwin.Daemon.Policy.{filter_devices}
use usbipd_darwin.Daemon.Wire.{to_exported, without_hubs, encode_rep_devlist}
use usbipd_darwin.Daemon.Wire.Client.{IsPortable, read_devlist, read_devlist-encode_rep_devlist}
use usbipd_darwin.Daemon.Session.Flow.{World, M, stop, read_exact}
use usbipd_darwin.Daemon.Session.Handlers.{Host, handle_devlist, handle_session, handle_import}

-- The session behind the header it has read.
abbrev read_header : World → List ℕ → World
read_header w rest = record w { conn = record w.conn { input = rest } }

length-header : (h : OpHeader) → length (Header.encode h []) ≡ 8
unfolding Header.encode
length-header h = refl

abbrev chosen : Host → List ℕ → OpHeader → M (UsbDevice × OpenedDevice)
chosen host peer h =
    if not (h.version == usbip_version)
    then (λ w. (stop (ok tt), w))
    else if h.code == op_req_devlist
    then handle_devlist host
    else if h.code == op_req_import
    then handle_import host peer
    else (λ w. (stop (ok tt), w))

handle_session-header :
    (host : Host) (peer : List ℕ) (w : World) (h : OpHeader) (rest : List ℕ)
    → IsOpHeader h
    → w.conn.input ≡ Header.encode h [] ++ rest
    → handle_session host peer w ≡ chosen host peer h (read_header w rest)
unfolding handle_session read_exact
handle_session-header host peer w h rest v e =
    let front : take 8 w.conn.input ≡ Header.encode h [] =
      ap (take 8) e ∙ take-append 8 (Header.encode h []) rest (sym (length-header h)) in
    let behind : drop 8 w.conn.input ≡ rest =
      ap (drop 8) e ∙ drop-append 8 (Header.encode h []) rest (sym (length-header h)) in
    let long : leb 8 (length w.conn.input) ≡ true =
      le→leb 8 (length w.conn.input)
        (omega (arith, ap length e, length-append (Header.encode h []) rest, length-header h)) in
    let read : Header.decode (Header.encode h []) ≡ ok h =
      ap Header.decode (sym (append-nil (Header.encode h []))) ∙ decode-encode_header h [] v in
    rw (long, front, behind, read) refl

-- A request for the list in a session that can write, where the wire format can carry every
-- device that the policy permits and that is no hub, and there are fewer than 2^32 of them: the
-- client reads from the reply just those devices, in the order of the listing, and the session
-- ends well, with the claims as they were.
pub handle_session-devlist :
    (host : Host) (peer : List ℕ) (w : World) (devices : List UsbDevice) (left : ℕ) (rest : List ℕ)
    → list_devices host.listed ≡ ok devices
    → w.conn.input ≡ Header.encode (Header.new op_req_devlist) [] ++ rest
    → w.conn.writes_left ≡ suc left
    → All IsPortable (without_hubs (filter_devices w.state.policy devices))
    → length (without_hubs (filter_devices w.state.policy devices)) < 2 ^ 32
    → (v : World) × (reply : List ℕ) × (handle_session host peer w ≡ (stop (ok tt), v))
      × (v.state ≡ w.state)
      × (v.conn.sent ≡ w.conn.sent ++ reply)
      × (read_devlist reply
          ≡ ok (
            Header.new op_rep_devlist,
            map to_exported (without_hubs (filter_devices w.state.policy devices)),
          ))
unfolding handle_devlist
handle_session-devlist host peer w devices left rest listed input writes portable few =
    let shown : List UsbDevice = filter_devices w.state.policy devices in
    let request : OpHeader = Header.new op_req_devlist in
    (
      record w {
        conn = record w.conn {
          input = rest;
          sent = w.conn.sent ++ encode_rep_devlist shown;
          writes_left = left;
        };
      },
      encode_rep_devlist shown,
      handle_session-header host peer w request rest (unfold Header.new in ground arith) input
          ∙ unfold Header.new in rw (listed, writes) refl,
      refl,
      refl,
      read_devlist-encode_rep_devlist shown portable few,
    )

-- A header of another version of the protocol, or with a code that is neither of the two
-- requests: the session ends without an error, nothing is written, and the claims stay.
pub handle_session-other :
    (host : Host) (peer : List ℕ) (w : World) (h : OpHeader) (rest : List ℕ)
    → IsOpHeader h
    → w.conn.input ≡ Header.encode h [] ++ rest
    → (h.version ≢ usbip_version) ⊎ ((h.code ≢ op_req_devlist) × (h.code ≢ op_req_import))
    → (v : World) × (handle_session host peer w ≡ (stop (ok tt), v))
      × (v.state ≡ w.state)
      × (v.conn.sent ≡ w.conn.sent)
handle_session-other host peer w h rest v input other = (
  read_header w rest,
  handle_session-header host peer w h rest v input
      ∙ ground (
        arith,
        nat_beq_iff h.version usbip_version,
        nat_beq_iff h.code op_req_devlist,
        nat_beq_iff h.code op_req_import,
      ),
  refl,
  refl,
)
