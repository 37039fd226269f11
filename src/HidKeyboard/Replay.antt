-- ===== src/HidKeyboard/Replay.antt =====
-- What the lines of the keyboard program tell of the keyboard.
use usbipd_darwin.Common.{ℕ, List, [], ◌∷◌, not, ◌≡◌, filter, ◌==◌, nat_eq, text_eq}
use usbipd_darwin.Common.Words.{index}
use usbipd_darwin.HidKeyboard.{
  Line, down, up, modifiers, short_report, transfer_error, contains, keys_of,
}

-- A reader of the lines: the keys that are down, and the modifiers.
pub record Held : Type 0 where
  pub keys : List ℕ
  pub mods : ℕ

unfoldable pub track : Held → Line → Held
track h (down k mods) = record { keys = k ∷ h.keys; mods = mods }
track h (up k mods) = record { keys = filter (λ j. not (j == k)) h.keys; mods = mods }
track h (modifiers mods) = record h { mods = mods }
track h (short_report bytes) = h
track h (transfer_error e) = h

unfoldable pub track_all : Held → List Line → Held
unfolding track
track_all h [] = h
track_all h (l ∷ ls) = track_all (track h l) ls

-- The reader knows the keys of a report and its modifiers.
abbrev pub Shows : Held → List ℕ → Type 0
Shows h report =
    ((k : ℕ) → contains k h.keys ≡ contains k (keys_of report)) × (h.mods ≡ index report 0)
