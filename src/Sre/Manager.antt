-- ===== src/Sre/Manager.antt =====
-- What the SRE boot manager does (uefi/crates/patina_sre/src/sre_boot_manager.rs). The loop over the
-- driver dispatcher is on fuel; the flag of the boot mode, which the capsule hook reads, is an argument.
pub mod PreLock
pub mod Keeps
pub mod Order
pub mod Returns
pub mod Passes
use odp_platform_common.Common.{
  ℕ, zero, suc, Bool, true, false, ◌&&◌, ◌||◌, Option, none, some, List, [], ◌∷◌, if◌then◌else◌,
}
use odp_platform_common.Common.Result.{Result, ok, err}
use odp_platform_common.Common.Action.{◌>>=◌, ◌>>◌, lift}
use odp_platform_common.Boot.Attempt.{boot_from_device_path}
use odp_platform_common.Boot.Config.{BootConfig}
use odp_platform_common.Boot.Connect.{connect_all, connect_all_skip_usb}
use odp_platform_common.Boot.Console.{discover_console_devices}
use odp_platform_common.Boot.Events.{enter_locked_boot, signal_ready_to_boot}
use odp_platform_common.Boot.Fallback.{Arch, fallback_boot_options}
use odp_platform_common.Boot.Firmware.{
  EfiError, not_found, dispatch, History, Firmware, Boot, attempt,
}
use odp_platform_common.Boot.Paths.{Paths}
use odp_platform_common.Boot.Variables.{discover_boot_options}
use odp_platform_common.Sre.Config.{SreBootManager}
use odp_platform_common.Sre.Flow.{Memory, bp_has_sre_payload, run_sre_flow}
use odp_platform_common.Sre.Hotkey.{SreHotkey, when, process, probe_sre_hotkey, run_pre_lock_phase}
use odp_platform_common.Sre.Usb.{
  device_path_has_usb_node, device_path_has_fw_file_node, find_first_usb_sfs_device_path,
}

module _ {DevicePath : Type 0} (fw : Firmware DevicePath) where
  -- The loop over the dispatcher: `none` where it still had drivers after so many rounds.
  unfoldable pub dispatch_drivers : ℕ → History DevicePath → History DevicePath × Option (Unit {0})
  dispatch_drivers zero h = (h, none)
  dispatch_drivers (suc fuel) h = elim (fw.dispatch_drivers h) [
    | err e ↦ (dispatch ∷ h, some tt)
    | ok more ↦ elim more [
      | true ↦ dispatch_drivers fuel (dispatch ∷ h)
      | false ↦ (dispatch ∷ h, some tt)
    ]
  ]

  unfoldable pub pre_lock_work :
      ℕ
      → Bool
      → SreBootManager DevicePath
      → History DevicePath
      → History DevicePath × Option (Unit {0})
  unfolding dispatch_drivers connect_all_skip_usb process
  pre_lock_work fuel is_flash_update_boot manager h =
      let (dispatched, done) = dispatch_drivers fuel h in
      elim done [
        | none ↦ (dispatched, none)
        | some _ ↦
            let (connected, _) = connect_all_skip_usb fw dispatched in
            let (last, _) =
              when manager.capsule_processing (process fw is_flash_update_boot) connected in
            (last, some tt)
      ]

module _ {Node DevicePath : Type 0} (paths : Paths Node DevicePath) (arch : Arch)
    (fw : Firmware DevicePath) (memory : Memory DevicePath) where
  -- An attempt with its signal; the failures of both are logged.
  unfoldable pub dispatch_path : ℕ → DevicePath → Boot DevicePath (Unit {0})
  unfolding signal_ready_to_boot boot_from_device_path
  dispatch_path image_handle device_path = do
    attempt (signal_ready_to_boot fw)
    attempt (boot_from_device_path paths fw image_handle device_path)
    lift (ok tt)

  unfoldable pub on_volume_up : Option DevicePath → ℕ → Boot DevicePath (Unit {0})
  unfolding dispatch_path signal_ready_to_boot run_sre_flow
  on_volume_up (some path) image_handle = dispatch_path image_handle path
  on_volume_up none image_handle = do
    attempt (signal_ready_to_boot fw)
    attempt (run_sre_flow paths arch fw memory image_handle)
    lift (ok tt)

  unfoldable pub on_volume_down : Option DevicePath → ℕ → Boot DevicePath (Unit {0})
  unfolding dispatch_path find_first_usb_sfs_device_path
  on_volume_down frontpage image_handle h =
      let (searched, usb) = find_first_usb_sfs_device_path paths arch fw h in
      elim usb [
        | some usb_path ↦ dispatch_path image_handle usb_path searched
        | none ↦ elim frontpage [
          | some path ↦ dispatch_path image_handle path searched
          | none ↦ (searched, ok tt)
        ]
      ]

  -- The whole device tree and the consoles.
  unfoldable pub connect_recovery : Boot DevicePath (Unit {0})
  unfolding connect_all discover_console_devices
  connect_recovery = do
    attempt (connect_all fw)
    attempt (discover_console_devices paths fw)
    lift (ok tt)

  unfoldable pub dispatch_hotkey :
      SreBootManager DevicePath → ℕ → SreHotkey → Boot DevicePath (Unit {0})
  unfolding connect_recovery on_volume_up on_volume_down
  dispatch_hotkey manager image_handle SreHotkey.volume_up = do
    connect_recovery
    on_volume_up manager.sre_app_path image_handle
  dispatch_hotkey manager image_handle SreHotkey.volume_down = do
    connect_recovery
    on_volume_down manager.frontpage_app_path image_handle
  dispatch_hotkey manager image_handle SreHotkey.none = lift (ok tt)

  -- A boot option that is passed over while the partition holds a recovery image.
  unfoldable pub is_skipped : Bool → DevicePath → Bool
  unfolding device_path_has_usb_node device_path_has_fw_file_node
  is_skipped bp_has_sre device_path =
      bp_has_sre
      && (device_path_has_usb_node paths device_path
          || device_path_has_fw_file_node paths device_path)

  -- The loop over the boot options; whether any was tried.
  unfoldable pub try_options :
      Bool → ℕ → List DevicePath → Bool → History DevicePath → History DevicePath × Bool
  unfolding is_skipped dispatch_path
  try_options bp_has_sre image_handle [] tried_any h = (h, tried_any)
  try_options bp_has_sre image_handle (device_path ∷ devices) tried_any h =
      elim (is_skipped bp_has_sre device_path) [
        | true ↦ try_options bp_has_sre image_handle devices tried_any h
        | false ↦
            try_options bp_has_sre image_handle devices true
              (dispatch_path image_handle device_path h).0
      ]

  -- The loop over the candidates of the fallback.
  unfoldable pub try_candidates :
      Bool → ℕ → List DevicePath → History DevicePath → History DevicePath
  unfolding device_path_has_usb_node boot_from_device_path
  try_candidates bp_has_sre image_handle [] h = h
  try_candidates bp_has_sre image_handle (device_path ∷ candidates) h =
      elim (bp_has_sre && device_path_has_usb_node paths device_path) [
        | true ↦ try_candidates bp_has_sre image_handle candidates h
        | false ↦
            try_candidates bp_has_sre image_handle candidates
              (boot_from_device_path paths fw image_handle device_path h).0
      ]

  -- The main OS path, and then the candidates.
  unfoldable pub try_fallback :
      SreBootManager DevicePath → Bool → ℕ → History DevicePath → History DevicePath
  unfolding dispatch_path fallback_boot_options try_candidates
  try_fallback manager bp_has_sre image_handle h =
      let (main, _) = dispatch_path image_handle manager.main_os_path h in
      let (asked, found) = fallback_boot_options paths fw arch manager.boot_source_policy main in
      elim found [
        | err e ↦ asked
        | ok candidates ↦ try_candidates bp_has_sre image_handle candidates asked
      ]

  unfoldable pub options_tried :
      Bool
      → ℕ
      → Result (BootConfig DevicePath) EfiError
      → History DevicePath
      → History DevicePath × Bool
  unfolding try_options
  options_tried bp_has_sre image_handle (err e) h = (h, false)
  options_tried bp_has_sre image_handle (ok config) h =
      try_options bp_has_sre image_handle config.devices false h

  -- Where no option was tried, the fallback is.
  unfoldable pub finish_pass :
      SreBootManager DevicePath → Bool → ℕ → History DevicePath × Bool → History DevicePath
  unfolding try_fallback
  finish_pass manager bp_has_sre image_handle (h, true) = h
  finish_pass manager bp_has_sre image_handle (h, false) =
      try_fallback manager bp_has_sre image_handle h

  -- A pass over the boot options, behind what it connects.
  unfoldable pub boot_pass :
      SreBootManager DevicePath → Bool → ℕ → History DevicePath → History DevicePath
  unfolding discover_boot_options options_tried finish_pass
  boot_pass manager bp_has_sre image_handle h =
      let (read, discovered) = discover_boot_options paths fw h in
      finish_pass manager bp_has_sre image_handle
        (options_tried bp_has_sre image_handle discovered read)

  -- Both passes; the second connects the whole tree before.
  unfoldable pub boot_passes :
      SreBootManager DevicePath → Bool → ℕ → History DevicePath → History DevicePath
  unfolding boot_pass connect_all
  boot_passes manager bp_has_sre image_handle h =
      boot_pass manager bp_has_sre image_handle
        (connect_all fw (boot_pass manager bp_has_sre image_handle h)).0

  unfoldable pub probe_payload : Bool → History DevicePath → History DevicePath × Bool
  unfolding bp_has_sre_payload
  probe_payload false h = (h, false)
  probe_payload true h = bp_has_sre_payload fw h

  -- After the hotkey: the passes, and the boot partition as the last resort.
  unfoldable pub boot_normally : SreBootManager DevicePath → ℕ → Boot DevicePath (Unit {0})
  unfolding probe_payload boot_passes run_sre_flow
  boot_normally manager image_handle h =
      let (probed, bp_has_sre) = probe_payload manager.bp_sre_fallback h in
      let passed = boot_passes manager bp_has_sre image_handle probed in
      let (last, _) = when bp_has_sre (run_sre_flow paths arch fw memory image_handle) passed in
      (last, err not_found)

  -- After the security transition.
  unfoldable pub boot_locked : SreBootManager DevicePath → ℕ → Boot DevicePath (Unit {0})
  unfolding probe_sre_hotkey dispatch_hotkey boot_normally
  boot_locked manager image_handle = do
    hotkey ← probe_sre_hotkey fw
    dispatch_hotkey manager image_handle hotkey
    boot_normally manager image_handle

  -- What follows the phase before the transition.
  unfoldable pub continue_locked :
      SreBootManager DevicePath
      → ℕ
      → History DevicePath × Option (Result (Unit {0}) EfiError)
      → History DevicePath × Option (Result (Unit {0}) EfiError)
  unfolding boot_locked
  continue_locked manager image_handle (h, none) = (h, none)
  continue_locked manager image_handle (h, some (err e)) = (h, some (err e))
  continue_locked manager image_handle (h, some (ok _)) =
      let (last, result) = boot_locked manager image_handle h in (last, some result)

  unfoldable pub execute :
      ℕ
      → Bool
      → SreBootManager DevicePath
      → ℕ
      → History DevicePath
      → History DevicePath × Option (Result (Unit {0}) EfiError)
  unfolding run_pre_lock_phase pre_lock_work enter_locked_boot continue_locked
  execute fuel is_flash_update_boot manager image_handle h = continue_locked manager image_handle (
      run_pre_lock_phase fw manager.dfci_bds_signal
        (pre_lock_work fw fuel is_flash_update_boot manager) (enter_locked_boot fw) h)
