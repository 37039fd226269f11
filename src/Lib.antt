-- ===== src/Lib.antt =====
-- usbipd-darwin: a USB/IP server for macOS. A daemon lists the host's USB devices to clients and
-- lets one client at a time import a device, whose transfers it then carries out.
--
-- The program's parts and the files about them:
-- * crates/usbip-proto, the wire formats. `op.rs` is Proto/Op: the op header (Header), device and
--   interface records, import requests and replies (Device), their layout (Layout), their texts
--   (Texts), decoding what was encoded (RoundTrip) and decoding any buffer (Reads). `urb.rs` is
--   Proto/Urb: headers and commands (Messages), replies (Replies), their round trips (RoundTrip)
--   and what decoding accepts (Exact). `error.rs` is Proto/Error. An encoder takes the bytes
--   written so far and gives them back with its own; a decoder gives a value or a `ProtoError`.
-- * crates/host-mac/src/lib.rs, the host's devices. Host/Nusb has the descriptions that nusb
--   gives, Host/Ids the bus and device numbers (`derive_bus_dev`, `parse_bus_id`, `fold_to_u8`),
--   Host/Devices the listing (`list_devices`, `from_info`, `format_busid`), what a busid tells of
--   its device (Busid), Host/Setup the setup packet, Host/Open the opening of a device
--   (`OpenedDevice::open`, `maybe_capture`, `descriptor_snapshot`) with the wait for one that is
--   captured (Wait). Host/Transfer is the device in use: what is asked of nusb (Calls), the
--   caches (Endpoints), `control_transfer` (Control), `data_transfer` (Transmit), the search for
--   an endpoint (Search), any sequence of these (Sequence), and several of them at once, step by
--   step (Overlap). Host/Release is the drop of `OpenedDevice` and `release_capture`, and which
--   device that gives back (Target).
-- * crates/host-mac/src/capture.rs, the calls of IOKit, is Host/Capture, and what they hold and
--   give back Host/Capture/Balance.
-- * crates/usbipd/src/daemon.rs, the server. Daemon/Policy is the access policy and its choice in
--   main.rs, Daemon/Attach the map of attached devices, Daemon/Wire the device list, Daemon/Conn
--   a client's connection, Daemon/Session the handshake (`handle_session`, `handle_devlist`,
--   `handle_import`), how the handshake ends (Ending), the session from its first byte to its end
--   (Whole), and how the list and an import agree (Listed), Daemon/Urb the URB mode: `urb_loop`'s reading of one request
--   (Requests), the loop over the whole stream with its own writes and waits (Reading), what a
--   transfer is answered with (Reply), the
--   transfer itself (Blocking), the shared table, permits and tasks (Tasks) and every
--   interleaving of the loop with the tasks (Steps), what becomes of each request (Answers),
--   what the loop's end does to the tasks it leaves behind (Drain), and the shared writer byte by byte
--   (Writer) with the stream of replies (Stream) and a client that reads it (Client).
--   Daemon/Listener is `serve` with its accept loops: the order of what it does (Order) and what
--   it gives back at its end (Shutdown).
-- * crates/usbipd/src/events.rs, the hotplug stream, is Events: the events and their lines
--   (Lines), the publisher with its map of identities (Publisher), the hub with its subscribers
--   and every interleaving of the tasks (Hub), what a reader of the stream knows (Consumer,
--   Invariant, Consistent), which devices the hub shows (Devices), and the socket (Listener).
-- * crates/usbipd/src/sudoers.rs with `emit_sudoers` of main.rs is Cli/Sudoers, and what sudo
--   reads from the fragment Cli/Sudoers/Command; `parse_vid_pid` of main.rs is Cli/Pairs, and
--   what its commands `daemon` and `list` hand on or print is Cli/Commands; Cli/Listing joins the
--   two.
-- * crates/host-mac/examples/hid_keyboard.rs, a reader of boot keyboard reports, is HidKeyboard,
--   and what its lines tell HidKeyboard/Replay.
-- Common has what the parts share; Tests runs the theorems at concrete inputs.
--
-- How they interact: a session reads an op header from the connection. For a list it filters the
-- host's devices by the policy and encodes them with Proto/Op. For an import it finds the device
-- by its busid, asks the policy, claims the busid in the daemon's state, opens the device,
-- describes it with the opened device's numbers and replies; the guard of the claim lives until
-- the session ends. The URB loop then reads requests with Proto/Urb, checks the devid, and spawns
-- one task per transfer, which calls the opened device. The drop of that device gives it back to
-- the kernel with Host/Capture, and so does `serve` at its end for every device that is still
-- attached. The hotplug stream is a process of its own; it shares the listing of devices and the
-- treatment of the socket file.
--
-- State: handlers are functions of a world (the connection and the daemon's state) to what they
-- return and the new world; a return inside the guard drops it. The connection says which bytes
-- the client sends, how its stream ends and how many writes succeed, so every failure of a read
-- or a write is reachable. In URB mode that count is of the loop's own writes, and a second count says
-- how many of its waits for a permit or for the writer come back; behind them the loop is held up, and
-- the guard with it. What nusb, IOKit and the clock answer is in the records `Usb`,
-- `Answers`, `Present` and `IoKit`, and no law is assumed of them but, where a theorem names it,
-- that nusb hands over as many bytes as it counts, that ports are numbered from 1, and that an
-- endpoint is in the active setting of one interface at most. An opened device in use is its caches and the
-- calls that nusb has had. The hub's broadcast channel is what its documentation promises, and
-- the JSON text of an event is a parameter. Text is its UTF-8 bytes, and its code points in
-- Cli/Sudoers and Cli/Pairs. A `u8`, `u16` or `u32` is a natural number, with `% 2 ^ w` where the
-- source wraps and a hypothesis on its width where the source's type says it; an `i32` is an
-- integer.
--
-- Bounds: the wait for a re-enumerated device has 100 rounds; each sleeps 50 ms, so the deadline
-- of 5 s is past when the last of them looks at the clock, and running out of rounds is that
-- timeout (Host/Open/Wait). The URB loop over the whole stream has fuel, one for each 48 bytes
-- and one more, which is enough (Daemon/Urb/Reading/Total); the keyboard's loop has a count of
-- rounds, which stands for when Ctrl-C is pressed. All other loops are structural: over the
-- bytes, the interfaces, the devices.
--
-- Two views of a reply: in Daemon/Urb/Tasks a write is one step, and Daemon/Urb/Writer has it
-- byte by byte, where an abort may come in between.
--
-- Not modelled: the C declarations of capture.rs and a function table of IOKit with a missing
-- entry, at which the source panics; the order in which nusb carries out the transfers of several
-- threads on one endpoint; the tokio runtime, the signals and the label of a Unix peer; the
-- argument declarations of main.rs and the printing itself; logging; panics of a task.
pub mod Common
pub mod Proto
pub mod Host
pub mod Daemon
pub mod Cli
pub mod Events
pub mod HidKeyboard
pub mod Tests
