-- ===== src/Boot/Simple.antt =====
-- The simple boot manager (uefi/crates/patina_boot/src/orchestrators/simple_boot_manager.rs).
pub mod Keeps
pub mod Order
use odp_platform_common.Common.{
  ℕ, Bool, true, false, Option, none, some, List, [], ◌∷◌, if◌then◌else◌,
}
use odp_platform_common.Common.Result.{Result, ok, err}
use odp_platform_common.Common.Action.{Action, ◌>>=◌, ◌>>◌, lift}
use odp_platform_common.Boot.Firmware.{EfiError, not_found, History, Firmware, Boot, attempt}
use odp_platform_common.Boot.Paths.{Paths}
use odp_platform_common.Boot.Config as Config
use odp_platform_common.Boot.Config.{BootConfig}
use odp_platform_common.Boot.Events.{enter_locked_boot, signal_ready_to_boot}
use odp_platform_common.Boot.Connect.{connect_all, interleave_connect_and_dispatch}
use odp_platform_common.Boot.Console.{discover_console_devices}
use odp_platform_common.Boot.Attempt.{boot_from_device_path, detect_hotkey}

-- The connection strategy is a call of the platform, or `connect_all`.
pub record SimpleBootManager (DevicePath : Type 0) : Type 0 where
  pub config : BootConfig DevicePath
  pub connect_strategy : Boot DevicePath (Unit {0})

module _ {DevicePath : Type 0} where
  unfoldable pub with_connect_strategy :
      BootConfig DevicePath → Boot DevicePath (Unit {0}) → SimpleBootManager DevicePath
  with_connect_strategy config strategy = record { config = config; connect_strategy = strategy }

  unfoldable pub new : Firmware DevicePath → BootConfig DevicePath → SimpleBootManager DevicePath
  unfolding connect_all
  new fw config = record { config = config; connect_strategy = connect_all fw }

module _ {Node DevicePath : Type 0} (paths : Paths Node DevicePath) (fw : Firmware DevicePath) where
  -- The attempts, in order: whether one returns or fails, the next is made.
  unfoldable pub boot_each : ℕ → List DevicePath → Boot DevicePath (Unit {0})
  unfolding signal_ready_to_boot boot_from_device_path
  boot_each image_handle [] = lift (ok tt)
  boot_each image_handle (device_path ∷ device_paths) = do
    attempt (signal_ready_to_boot fw)
    attempt (boot_from_device_path paths fw image_handle device_path)
    boot_each image_handle device_paths

  -- Whether the hotkey devices are used; `none` where the keys did not end.
  unfoldable pub hotkey_pressed :
      ℕ → Option ℕ → History DevicePath → History DevicePath × Option Bool
  unfolding detect_hotkey
  hotkey_pressed fuel none h = (h, some false)
  hotkey_pressed fuel (some hotkey) h = detect_hotkey fw fuel hotkey h

  unfoldable pub boot_selected : BootConfig DevicePath → ℕ → Bool → Boot DevicePath (Unit {0})
  unfolding boot_each Config.handle_failure
  boot_selected config image_handle use_hotkey_devices = do
    boot_each image_handle (if use_hotkey_devices then config.hotkey_devices else config.devices)
    Config.handle_failure config
    lift (err not_found)

  -- After the security transition.
  unfoldable pub boot_locked :
      ℕ
      → BootConfig DevicePath
      → ℕ
      → History DevicePath
      → History DevicePath × Option (Result (Unit {0}) EfiError)
  unfolding discover_console_devices hotkey_pressed boot_selected
  boot_locked fuel config image_handle h =
      let (h', consoles) = discover_console_devices paths fw h in
      let (h'', pressed) = hotkey_pressed fuel config.hotkey h' in
      elim pressed [
        | none ↦ (h'', none)
        | some use_hotkey_devices ↦
            let (last, result) = boot_selected config image_handle use_hotkey_devices h'' in
            (last, some result)
      ]

  -- With the fuel of the two loops; `none` where it did not suffice.
  unfoldable pub execute :
      ℕ
      → SimpleBootManager DevicePath
      → ℕ
      → History DevicePath
      → History DevicePath × Option (Result (Unit {0}) EfiError)
  unfolding interleave_connect_and_dispatch enter_locked_boot boot_locked
  execute fuel manager image_handle h =
      let (h', connected) = interleave_connect_and_dispatch fw manager.connect_strategy fuel h in
      elim connected [
        | none ↦ (h', none)
        | some _ ↦
            let (h'', locked) = enter_locked_boot fw h' in
            elim locked [
              | err e ↦ (h'', some (err e))
              | ok _ ↦ boot_locked fuel manager.config image_handle h''
            ]
      ]
