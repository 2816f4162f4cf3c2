-- ===== src/Sre/Hotkey.antt =====
-- The hotkey and the phase before the security transition (uefi/crates/patina_sre/src/
-- sre_boot_manager.rs, events.rs and capsule.rs).
pub mod Keeps
use odp_platform_common.Common.{ℕ, Bool, true, false, Option, not, ◌==◌, if◌then◌else◌}
use odp_platform_common.Common.Result.{Result, ok, err}
use odp_platform_common.Common.Action.{◌>>=◌, ◌>>◌, lift}
use odp_platform_common.Boot.Firmware.{
  EfiError, EventGroup, ms_start_of_bds, dfci_start_of_bds, mu_ready_to_process_capsules,
  ms_button_services, VolumeButton, locate_protocol, create, signal, close, check_volume,
  clear_volume, History, Firmware, Boot, ask, attempt,
}
use odp_platform_common.Boot.Proxy.{display_boot_logo}

pub data SreHotkey : Type 0 where
  volume_up : SreHotkey
  volume_down : SreHotkey
  none : SreHotkey

unfoldable pub hotkey_of : ℕ → ℕ → SreHotkey
hotkey_of vol_up vol_down =
    if not (vol_up == 0)
    then SreHotkey.volume_up
    else if not (vol_down == 0)
    then SreHotkey.volume_down
    else SreHotkey.none

-- `if b && let Err(e) = m { log }`.
abbrev pub when :
    {DevicePath : Type 0} → Bool → Boot DevicePath (Unit {0}) → Boot DevicePath (Unit {0})
when true m h = ((m h).0, ok tt)
when false m h = (h, ok tt)

module _ {DevicePath : Type 0} (fw : Firmware DevicePath) where
  -- A check, with the byte that it leaves.
  unfoldable pub check_button : VolumeButton → ℕ → Boot DevicePath ℕ
  check_button button protocol =
      ask (check_volume button protocol) λ h. ok (fw.volume_check h button protocol)

  -- Both buttons are checked, and the state is cleared, whatever they report.
  unfoldable pub read_buttons : ℕ → Boot DevicePath SreHotkey
  unfolding check_button hotkey_of
  read_buttons protocol = do
    vol_up ← check_button VolumeButton.volume_up protocol
    vol_down ← check_button VolumeButton.volume_down protocol
    ask (clear_volume protocol) λ h. ok tt
    lift (ok (hotkey_of vol_up vol_down))

  unfoldable pub buttons_at : Result ℕ EfiError → Boot DevicePath SreHotkey
  unfolding read_buttons
  buttons_at (err e) = lift (ok SreHotkey.none)
  buttons_at (ok interface) =
      if interface == 0 then lift (ok SreHotkey.none) else read_buttons interface

  unfoldable pub probe_sre_hotkey : Boot DevicePath SreHotkey
  unfolding buttons_at
  probe_sre_hotkey = do
    located ← attempt (
        ask (locate_protocol ms_button_services)
          λ h. fw.locate_protocol_unchecked h ms_button_services)
    buttons_at located

  unfoldable pub signal_event_group : EventGroup → Boot DevicePath (Unit {0})
  signal_event_group group = do
    event ← ask (create group) λ h. fw.create_event_ex h group
    signal_result ← attempt (ask (signal event) λ h. fw.signal_event h event)
    close_result ← attempt (ask (close event) λ h. fw.close_event h event)
    lift signal_result
    lift close_result

  -- The hook of the capsule queue, with the flag of the boot mode; its failures are logged.
  unfoldable pub process : Bool → Boot DevicePath (Unit {0})
  unfolding signal_event_group display_boot_logo
  process is_flash_update_boot = do
    when is_flash_update_boot (display_boot_logo fw)
    attempt (signal_event_group mu_ready_to_process_capsules)
    lift (ok tt)

  -- `none` where the work before the transition did not end.
  unfoldable pub run_pre_lock_phase :
      Bool
      → (History DevicePath → History DevicePath × Option (Unit {0}))
      → Boot DevicePath (Unit {0})
      → History DevicePath
      → History DevicePath × Option (Result (Unit {0}) EfiError)
  unfolding signal_event_group
  run_pre_lock_phase signal_dfci_start pre_lock_work enter_locked_boot h =
      let (begun, _) = signal_event_group ms_start_of_bds h in
      let (signalled, _) = when signal_dfci_start (signal_event_group dfci_start_of_bds) begun in
      let (worked, done) = pre_lock_work signalled in
      elim done [
        | Option.none ↦ (worked, Option.none)
        | Option.some _ ↦
            let (last, locked) = enter_locked_boot worked in (last, Option.some locked)
      ]
