-- ===== src/Tests/Events.antt =====
-- The hotplug stream of crates/usbipd/src/events.rs.
use usbipd_darwin.Common.{
  ℕ, [], ◌∷◌, ◌++◌, none, some, true, false, ◌≡◌, ◌↔◌, refl, arith, text_eq, nat_eq,
}
use usbipd_darwin.Common.Map
use usbipd_darwin.Host.Devices.{from_info}
use usbipd_darwin.Events.Lines.{EventLine, added, from_host, identity}
use usbipd_darwin.Events.Publisher.{
  Publisher, connected, disconnected, idle, publish, publish_all, note_added, publish_added,
}
use usbipd_darwin.Events.Hub.{
  World, Subscriber, subscribed, serving, new, subscribe, snapshot_added, note, send, broadcast,
  write_received, Run, here, then_step, accept, snapshot, hotplug, sent, received_line,
}
use usbipd_darwin.Events.Consumer.{known}
use usbipd_darwin.Events.Consistent.{subscriber-consistent}
use usbipd_darwin.Events.Devices.{
  busid_at, shows, plug_all, nothing, publish_all-shows, late_removal,
}
use usbipd_darwin.Tests.Samples.{stick_info, stick_busid}

abbrev plugged : EventLine
plugged = added (from_host (from_info stick_info))

-- A subscriber comes, with nothing plugged in; then the stick is, and the subscriber writes that.
abbrev served : Subscriber
served = record { stage = serving; initial = []; queue = []; written = []; lagged = false }

abbrev waiting : Subscriber
waiting = record served { queue = plugged ∷ [] }

abbrev told : Subscriber
told = record served { written = plugged ∷ [] }

abbrev watched : World
watched = snapshot_added 0 (record served { stage = subscribed }) [] (subscribe new)

abbrev noticed : World
noticed = note (connected 3 stick_info) watched

abbrev at_end : World
at_end = write_received 0 waiting plugged [] (send noticed)

at_end-Run : Run new at_end
unfolding new subscribe snapshot_added note send broadcast Map.get Map.insert publish publish_added
    idle
at_end-Run =
    then_step
      (then_step
        (then_step
          (then_step (then_step here (accept new refl)) (
            snapshot (subscribe new) 0 (record served { stage = subscribed }) [] refl refl refl
              (λ d. (λ m. elim m [ ], λ h. absurd (ground arith)))))
          (hotplug watched (connected 3 stick_info) refl))
        (sent noticed (λ h. absurd (ground arith))))
      (received_line (send noticed) 0 waiting plugged [] refl refl refl refl)

at_end_told : Map.get 0 at_end.subscribers ≡ some told
unfolding write_received Map.get Map.insert send broadcast note snapshot_added subscribe new
at_end_told = refl

subscriber-consistent_example :
    known stick_busid (told.written ++ (told.initial ++ (told.queue ++ at_end.pending))) none
    ≡ Map.get stick_busid at_end.publisher.snapshot
subscriber-consistent_example =
    subscriber-consistent at_end 0 told stick_busid at_end-Run at_end_told refl refl

publish_all-shows_example :
    let hs = connected 3 stick_info ∷ disconnected 3 ∷ [] in
    (shows stick_busid (publish_all hs idle) ≡ true)
    ↔ ((id : ℕ) × (plug_all hs nothing id ≡ some stick_busid))
publish_all-shows_example =
    publish_all-shows (connected 3 stick_info ∷ disconnected 3 ∷ []) stick_busid
      ((λ j h. absurd (ground arith), λ k h. absurd (ground arith)), (tt, tt))

abbrev with_stick : Publisher
with_stick = (publish (connected 3 stick_info) idle).0

stick_known : busid_at 3 with_stick ≡ some (from_info stick_info).busid
unfolding busid_at publish publish_added note_added idle Map.get Map.insert identity from_host
stick_known = refl

-- The stick comes back as 4 before 3 is reported gone.
late_removal_example :
    let q = publish_all (connected 4 stick_info ∷ disconnected 3 ∷ []) with_stick in
    (busid_at 4 q ≡ some (from_info stick_info).busid)
    × (shows (from_info stick_info).busid q ≡ false)
late_removal_example =
    late_removal with_stick 3 4 stick_info stick_known (λ h. absurd (omega arith))
