-- ===== src/Tests/Keyboard.antt =====
-- crates/host-mac/examples/hid_keyboard.rs.
use usbipd_darwin.Common.{◌≡◌, refl, [], ◌∷◌, ok, some, replicate, codes, nat_eq, text_eq}
use usbipd_darwin.Common.Map
use usbipd_darwin.HidKeyboard.{down, up, modifiers, print_report, line_text, read_reports}
use usbipd_darwin.HidKeyboard.Replay.{Held}
use usbipd_darwin.Host.Transfer.Calls.{Answers, ask, try_ask, complete}
use usbipd_darwin.Host.Transfer.Endpoints.{
  endpoint_kind, search_endpoint, active_endpoint, active_setting, kind_of, ensure_endpoint,
  ensure_interface, is_claimed,
}
use usbipd_darwin.Host.Transfer.Transmit.{finish_in}
use usbipd_darwin.Tests.Transfer.{stick_answers, fresh}

-- LShift goes down, A stays, and B comes instead of C.
shift_b :
    print_report (2 ∷ 0 ∷ 5 ∷ 4 ∷ 0 ∷ 0 ∷ 0 ∷ 0 ∷ []) (0 ∷ 0 ∷ 4 ∷ 6 ∷ 0 ∷ 0 ∷ 0 ∷ 0 ∷ [])
    ≡ down 5 2 ∷ up 6 2 ∷ []
unfolding print_report
shift_b = refl

shift_b_text : line_text (down 5 2) ≡ some (codes "DOWN           B  usage=0x05  [LShift]")
unfolding line_text
shift_b_text = refl

two_mods : line_text (modifiers 0x81) ≡ some (codes "MOD   [LCtrl+RGUI]")
unfolding line_text
two_mods = refl

abbrev none_held : Held
none_held = record { keys = []; mods = 0 }

-- A keyboard that reports LShift and two keys.
abbrev keyboard : Answers
keyboard = record stick_answers {
  completed = λ _ _. record { actual_len = 8; result = ok (2 ∷ 0 ∷ 5 ∷ 4 ∷ 0 ∷ 0 ∷ 0 ∷ 0 ∷ []) };
}

keyboard_lines :
    (read_reports keyboard 3 5 (replicate 8 0) fresh).0
    ≡ (down 4 2 ∷ down 5 2 ∷ [], 2 ∷ 0 ∷ 5 ∷ 4 ∷ 0 ∷ 0 ∷ 0 ∷ 0 ∷ [])
unfolding read_reports endpoint_kind search_endpoint active_endpoint active_setting kind_of
    ensure_endpoint ensure_interface is_claimed ask try_ask complete finish_in Map.get Map.insert
keyboard_lines = refl
