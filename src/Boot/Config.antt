-- ===== src/Boot/Config.antt =====
-- The configuration of a boot (uefi/crates/patina_boot/src/config.rs). The failure handler is a
-- closure of the platform: here, whether there is one.
use odp_platform_common.Common.{
  ℕ, Bool, true, false, Option, none, some, List, [], ◌∷◌, ◌++◌, if◌then◌else◌,
}
use odp_platform_common.Common.Result.{ok}
use odp_platform_common.Common.Action.{lift}
use odp_platform_common.Boot.Firmware.{Boot, failure_handler, ask}

pub record BootConfig (DevicePath : Type 0) : Type 0 where
  pub devices : List DevicePath
  pub hotkey : Option ℕ
  pub hotkey_devices : List DevicePath
  pub has_failure_handler : Bool

module _ {DevicePath : Type 0} where
  unfoldable pub new : DevicePath → BootConfig DevicePath
  new device = record {
    devices = device ∷ [];
    hotkey = none;
    hotkey_devices = [];
    has_failure_handler = false;
  }

  unfoldable pub with_device : BootConfig DevicePath → DevicePath → BootConfig DevicePath
  with_device c device = record c { devices = c.devices ++ device ∷ [] }

  unfoldable pub with_hotkey : BootConfig DevicePath → ℕ → BootConfig DevicePath
  with_hotkey c scancode = record c { hotkey = some scancode }

  unfoldable pub with_hotkey_device : BootConfig DevicePath → DevicePath → BootConfig DevicePath
  with_hotkey_device c device = record c { hotkey_devices = c.hotkey_devices ++ device ∷ [] }

  unfoldable pub with_failure_handler : BootConfig DevicePath → BootConfig DevicePath
  with_failure_handler c = record c { has_failure_handler = true }

  unfoldable pub handle_failure : BootConfig DevicePath → Boot DevicePath (Unit {0})
  handle_failure c =
      if c.has_failure_handler then ask failure_handler (λ h. ok tt) else lift (ok tt)
