-- ===== src/Boot/Simple/Keeps.antt =====
-- What all the steps after the security transition keep.
use odp_platform_common.Common.{
  ℕ, suc, Bool, Option, Option-cases, none, some, List, [], ◌∷◌, inl, inr, Bool-cases,
  if◌then◌else◌, ◌≡◌, refl,
}
use odp_platform_common.Boot.Firmware.{ready_to_boot, failure_handler, History, Firmware}
use odp_platform_common.Boot.Firmware.Keeps.{is_silent, Keeps, Stays, Keeps-bind}
use odp_platform_common.Boot.Paths.{Paths}
use odp_platform_common.Boot.Config as Config
use odp_platform_common.Boot.Config.{BootConfig}
use odp_platform_common.Boot.Events.{signal_ready_to_boot}
use odp_platform_common.Boot.Console.{discover_console_devices}
use odp_platform_common.Boot.Attempt.{boot_from_device_path}
use odp_platform_common.Boot.Quiet.{signal_group-Keeps}
use odp_platform_common.Boot.Quiet.Queries.{detect_hotkey-Keeps, discover_console_devices-Keeps}
use odp_platform_common.Boot.Simple.{boot_each, hotkey_pressed, boot_selected, boot_locked}

-- The calls that load or start an image or set the timer.
unfoldable pub image_calls : {DevicePath : Type 0} → History DevicePath → ℕ
image_calls [] = 0
image_calls (c ∷ h) = if is_silent c then image_calls h else suc (image_calls h)

module _ {DevicePath : Type 0} (past : History DevicePath) where
  -- No image was loaded or started since.
  abbrev pub NoImageSince : History DevicePath → Type 0
  NoImageSince h = image_calls h ≡ image_calls past

  pub NoImageSince-Stays : Stays NoImageSince
  unfolding image_calls
  NoImageSince-Stays c h quiet e = rw quiet e

-- A property that the attempts keep is kept by all that follows the security transition.
module _ {Node DevicePath : Type 0} (paths : Paths Node DevicePath) (fw : Firmware DevicePath)
    (P : History DevicePath → Type 0) (stays : Stays P)
    (attempts : (parent : ℕ) (path : DevicePath)
      → Keeps P (boot_from_device_path paths fw parent path)) where
  pub boot_each-Keeps :
      (image_handle : ℕ) (device_paths : List DevicePath)
      → Keeps P (boot_each paths fw image_handle device_paths)
  unfolding boot_each signal_ready_to_boot
  boot_each-Keeps image_handle [] h p = p
  boot_each-Keeps image_handle (device_path ∷ device_paths) h p =
      let announced = signal_group-Keeps P stays fw ready_to_boot h p in
      boot_each-Keeps image_handle device_paths _ (attempts image_handle device_path _ announced)

  pub boot_selected-Keeps :
      (config : BootConfig DevicePath) (image_handle : ℕ) (pressed : Bool)
      → Keeps P (boot_selected paths fw config image_handle pressed)
  unfolding boot_selected Config.handle_failure
  boot_selected-Keeps config image_handle pressed h p =
      let devices = if pressed then config.hotkey_devices else config.devices in
      Keeps-bind P (boot_each paths fw image_handle devices h) _
        (boot_each-Keeps image_handle devices h p)
        λ _ h' p'. elim (Bool-cases config.has_failure_handler) [
          | inl yes_handler ↦ rw yes_handler (stays failure_handler h' refl p')
          | inr no_handler ↦ rw no_handler p'
        ]

  pub hotkey_pressed-Keeps :
      (fuel : ℕ) (hotkey : Option ℕ) (h : History DevicePath)
      → P h
      → P (hotkey_pressed paths fw fuel hotkey h).0
  unfolding hotkey_pressed
  hotkey_pressed-Keeps fuel none h p = p
  hotkey_pressed-Keeps fuel (some hotkey) h p = detect_hotkey-Keeps P stays fw fuel hotkey h p

  pub boot_locked-Keeps :
      (fuel : ℕ) (config : BootConfig DevicePath) (image_handle : ℕ) (h : History DevicePath)
      → P h
      → P (boot_locked paths fw fuel config image_handle h).0
  unfolding boot_locked
  boot_locked-Keeps fuel config image_handle h p =
      let (h', consoles) = discover_console_devices paths fw h in
      let (h'', pressed) = hotkey_pressed paths fw fuel config.hotkey h' in
      let p'' =
        hotkey_pressed-Keeps fuel config.hotkey h'
          (discover_console_devices-Keeps paths P stays fw h p) in
      elim (Option-cases pressed) [
        | inl out ↦ rw (boot_locked, out) p''
        | inr (use_hotkey_devices, keys) ↦
            rw (boot_locked, keys)
              (boot_selected-Keeps config image_handle use_hotkey_devices h'' p'')
      ]
