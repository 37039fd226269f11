-- ===== src/Host/Capture.antt =====
-- crates/host-mac/src/capture.rs: the calls of IOKit that re-enumerate a device, and what they answer.
pub mod Balance
use usbipd_darwin.Common.{
  ℕ, zero, ◌^◌, List, [], ◌∷◌, ◌++◌, Bool, true, false, ◌&&◌, not, Result, ok, err, ◌==◌, nat_eq,
  if◌then◌else◌, ℤ, pos, negsuc,
}
use usbipd_darwin.Host.Open.{
  CaptureError, no_service, plug_in, query_interface, open_seize, re_enumerate,
}

abbrev pub capture_device_mask : ℕ
capture_device_mask = 2 ^ 30

abbrev pub release_device_mask : ℕ
release_device_mask = 2 ^ 29

-- What IOKit answers: a service (0 for none), the codes that the calls return, and whether they filled
-- in the pointer that they are to fill in.
pub record IoKit : Type 0 where
  pub matches : ℕ → Bool
  pub service : ℕ → ℕ
  pub plugin_code : ℕ → ℤ
  pub has_plugin : ℕ → Bool
  pub query_code : ℕ → ℤ
  pub has_device : ℕ → Bool
  pub seize_code : ℕ → ℤ
  pub reenumerate_code : ℕ → ℕ → ℤ

pub data IoCall : Type 0 where
  get_service create_plugin query_device release_plugin seize_device close_device release_device
        release_service :
      IoCall
  reenumerate : ℕ → IoCall

-- `kr == kIOReturnSuccess`
unfoldable pub is_success : ℤ → Bool
is_success (pos n) = n == 0
is_success (negsuc n) = false

-- The calls of a block, in their order, and what it returns.
abbrev pub Outcome : Type 0
Outcome = List IoCall × Result (Unit {0}) CaptureError

-- A call that comes before a block, and one that the drop of a guard makes after it.
unfoldable pub call : IoCall → Outcome → Outcome
call c (calls, r) = (c ∷ calls, r)

unfoldable pub at_drop : IoCall → Outcome → Outcome
at_drop c (calls, r) = (calls ++ (c ∷ []), r)

module _ (kit : IoKit) (id : ℕ) where
  -- Steps 5 and 6, and the drop of the device guard.
  reenumerate_seized : ℕ → Outcome
  reenumerate_seized options = call (reenumerate options) (
      call close_device (
        [],
        if is_success (kit.reenumerate_code id options)
            then ok tt
            else err (re_enumerate (kit.reenumerate_code id options)),
      ))

  -- Step 4.
  with_device : ℕ → Outcome
  unfolding reenumerate_seized
  with_device options = call seize_device (
      if is_success (kit.seize_code id)
      then reenumerate_seized options
      else ([], err (open_seize (kit.seize_code id))))

  -- Step 3: the plug-in is released whatever the query gave.
  with_plugin : ℕ → Outcome
  unfolding with_device
  with_plugin options = call query_device (
      call release_plugin (
        if is_success (kit.query_code id) && kit.has_device id
        then at_drop release_device (with_device options)
        else ([], err (query_interface (kit.query_code id)))))

  -- Step 2.
  with_service : ℕ → Outcome
  unfolding with_plugin
  with_service options = call create_plugin (
      if is_success (kit.plugin_code id) && kit.has_plugin id
      then with_plugin options
      else ([], err (plug_in (kit.plugin_code id))))

  unfoldable pub reenumerate_with_options : ℕ → Outcome
  unfolding with_service
  reenumerate_with_options options =
      if not (kit.matches id)
      then ([], err (no_service id))
      else call get_service (
          if kit.service id == 0
          then ([], err (no_service id))
          else at_drop release_service (with_service options))

  unfoldable pub reenumerate_with_capture : Outcome
  unfolding reenumerate_with_options
  reenumerate_with_capture = reenumerate_with_options capture_device_mask

  unfoldable pub reenumerate_release : Outcome
  unfolding reenumerate_with_options
  reenumerate_release = reenumerate_with_options release_device_mask
