-- ===== src/Events/Publisher.antt =====
-- The publisher of crates/usbipd/src/events.rs: `IdMap`, and what `run_async` makes of a device of the
-- first listing or of a hotplug event.
use usbipd_darwin.Common.{ℕ, List, [], ◌∷◌, Option, none, some, nat_eq, text_eq}
use usbipd_darwin.Common.Map
use usbipd_darwin.Common.Map.{Map}
use usbipd_darwin.Host.Nusb.{DeviceInfo}
use usbipd_darwin.Host.Devices.{from_info}
use usbipd_darwin.Events.Lines.{
  AddedDevice, RemovedDevice, EventLine, added, removed, identity, from_host,
}

-- `nusb::DeviceId` is opaque: it stands here as a number.
pub record IdMap : Type 0 where
  pub by_id : Map ℕ RemovedDevice

unfoldable pub note_added : ℕ → RemovedDevice → IdMap → IdMap
note_added id dev m = record { by_id = Map.insert id dev m.by_id }

unfoldable pub note_removed : ℕ → IdMap → Option RemovedDevice × IdMap
note_removed id m = (Map.get id m.by_id, record { by_id = Map.remove id m.by_id })

-- The map of the publisher, and the hub's snapshot, which only it writes.
pub record Publisher : Type 0 where
  pub idmap : IdMap
  pub snapshot : Map (List ℕ) AddedDevice

unfoldable pub idle : Publisher
idle = record { idmap = record { by_id = [] }; snapshot = [] }

-- `nusb::hotplug::HotplugEvent`; a device of the first listing is published like a connected one.
pub data Hotplug : Type 0 where
  connected : ℕ → DeviceInfo → Hotplug
  disconnected : ℕ → Hotplug

-- The locked part of `publish_added`, and the event that it sends then.
unfoldable pub publish_added : AddedDevice → Publisher → Publisher × Option EventLine
publish_added dev p =
    (record p { snapshot = Map.insert dev.busid dev p.snapshot }, some (added dev))

unfoldable pub publish_removed : RemovedDevice → Publisher → Publisher × Option EventLine
publish_removed dev p =
    (record p { snapshot = Map.remove dev.busid p.snapshot }, some (removed dev))

publish_known : Option RemovedDevice → Publisher → Publisher × Option EventLine
unfolding publish_removed
publish_known none p = (p, none)
publish_known (some dev) p = publish_removed dev p

-- One round of the publisher: the new state, and the event that it is about to send.
unfoldable pub publish : Hotplug → Publisher → Publisher × Option EventLine
unfolding note_added note_removed publish_added publish_known
publish (connected id info) p =
    let dev = from_host (from_info info) in
    publish_added dev (record p { idmap = note_added id (identity dev) p.idmap })
publish (disconnected id) p =
    let (known, idmap) = note_removed id p.idmap in publish_known known (record p { idmap = idmap })

unfoldable pub publish_all : List Hotplug → Publisher → Publisher
unfolding publish
publish_all [] p = p
publish_all (h ∷ hs) p = publish_all hs (publish h p).0
