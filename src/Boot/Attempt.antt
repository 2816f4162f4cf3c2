-- ===== src/Boot/Attempt.antt =====
-- Boot attempts and the hotkey (uefi/crates/patina_boot/src/helpers.rs).
use odp_platform_common.Common.{
  ℕ, zero, suc, Bool, true, false, Option, none, some, List, [], ◌∷◌, ◌==◌, if◌then◌else◌,
}
use odp_platform_common.Common.Result.{ok, err}
use odp_platform_common.Common.Action.{◌>>=◌, ◌>>◌, lift}
use odp_platform_common.Boot.Firmware.{
  simple_text_input, by_protocol, locate_handles, interface_of, read_key, load, watchdog, start,
  History, Firmware, Boot, ask, attempt,
}
use odp_platform_common.Boot.Paths.{Paths}
use odp_platform_common.Boot.Expand.{is_partial_device_path, expand_device_path}

abbrev pub watchdog_timeout_seconds : ℕ
watchdog_timeout_seconds = 300

module _ {DevicePath : Type 0} (fw : Firmware DevicePath) where
  unfoldable pub set_watchdog : ℕ → Boot DevicePath (Unit {0})
  set_watchdog seconds = ask (watchdog seconds) λ h. fw.set_watchdog_timer h seconds

  -- From the loaded image on.
  unfoldable pub start_image : ℕ → Boot DevicePath (Unit {0})
  unfolding set_watchdog
  start_image image = do
    set_watchdog watchdog_timeout_seconds
    result ← attempt (ask (start image) λ h. fw.start_image h image)
    attempt (set_watchdog 0)
    lift result

module _ {Node DevicePath : Type 0} (paths : Paths Node DevicePath) (fw : Firmware DevicePath) where
  unfoldable pub full_path : DevicePath → Boot DevicePath DevicePath
  unfolding is_partial_device_path expand_device_path
  full_path device_path =
      if is_partial_device_path paths device_path
      then expand_device_path paths fw device_path
      else lift (ok device_path)

  unfoldable pub boot_from_device_path : ℕ → DevicePath → Boot DevicePath (Unit {0})
  unfolding full_path start_image
  boot_from_device_path parent device_path = do
    path ← full_path device_path
    image ← ask (load parent path) λ h. fw.load_image h parent path
    start_image fw image

module _ {DevicePath : Type 0} (fw : Firmware DevicePath) where
  -- The loop over the key strokes of an interface, on fuel: whether one is the hotkey, or `none`
  -- where there were still keys after so many.
  unfoldable pub read_keys : ℕ → ℕ → ℕ → History DevicePath → History DevicePath × Option Bool
  read_keys zero scancode interface h = (h, none)
  read_keys (suc fuel) scancode interface h = elim (fw.read_key_stroke h interface) [
    | err e ↦ (read_key interface ∷ h, some false)
    | ok key ↦ elim (key == scancode) [
      | true ↦ (read_key interface ∷ h, some true)
      | false ↦ read_keys fuel scancode interface (read_key interface ∷ h)
    ]
  ]

  unfoldable pub detect_hotkey_from_handles :
      ℕ → ℕ → List ℕ → History DevicePath → History DevicePath × Option Bool
  unfolding read_keys
  detect_hotkey_from_handles fuel scancode [] h = (h, some false)
  detect_hotkey_from_handles fuel scancode (handle ∷ handles) h =
      let asked = interface_of simple_text_input handle ∷ h in
      elim (fw.handle_protocol h simple_text_input handle) [
        | err e ↦ detect_hotkey_from_handles fuel scancode handles asked
        | ok interface ↦
            let (h', found) = read_keys fuel scancode interface asked in
            elim found [
              | none ↦ (h', none)
              | some hit ↦ elim hit [
                | true ↦ (h', some true)
                | false ↦ detect_hotkey_from_handles fuel scancode handles h'
              ]
            ]
      ]

  unfoldable pub detect_hotkey : ℕ → ℕ → History DevicePath → History DevicePath × Option Bool
  unfolding detect_hotkey_from_handles
  detect_hotkey fuel scancode h =
      let asked = locate_handles (by_protocol simple_text_input) ∷ h in
      elim (fw.locate_handle_buffer h (by_protocol simple_text_input)) [
        | err e ↦ (asked, some false)
        | ok handles ↦ detect_hotkey_from_handles fuel scancode handles asked
      ]
