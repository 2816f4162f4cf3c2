-- ===== src/Boot/Variables.antt =====
-- The boot variables (uefi/crates/patina_boot/src/helpers.rs). The name of a variable is the list of
-- its characters.
pub mod State
use odp_platform_common.Common.{
  ℕ, zero, suc, ◌+◌, ◌*◌, ◌/◌, ◌%◌, Bool, true, false, not, ◌||◌, Option, none, some, List, [], ◌∷◌,
  ◌++◌, length, ltb, ◌==◌, if◌then◌else◌, contains,
}
use odp_platform_common.Common.Result.{Result, ok, err}
use odp_platform_common.Common.Action.{Action, ◌>>=◌, ◌>>◌, lift}
use odp_platform_common.Text.{Text, codes}
use odp_platform_common.Boot.Firmware.{
  EfiError, not_found, security_violation, Protocol, simple_text_input, simple_text_output,
  graphics_output, by_protocol, locate_handles, get_variable, set_variable, History, Firmware, Boot,
  ask, attempt,
}
use odp_platform_common.Boot.Paths.{Paths}
use odp_platform_common.Boot.Config as Config
use odp_platform_common.Boot.Config.{BootConfig}
use odp_platform_common.Boot.Policy.{SecureBootState, enabled, disabled, setup_mode}
use odp_platform_common.Boot.LoadOption.{parse_load_option}
use odp_platform_common.Boot.Expand.{path_of}

abbrev pub hex_digit : ℕ → ℕ
hex_digit d = if ltb d 10 then 48 + d else 55 + d

-- `format!("Boot{:04X}", …)` of 16 bits.
unfoldable pub boot_option_variable_name : ℕ → Text
boot_option_variable_name n =
    codes "Boot"
    ++ hex_digit (n / 4096 % 16)
      ∷ hex_digit (n / 256 % 16)
      ∷ hex_digit (n / 16 % 16)
      ∷ hex_digit (n % 16)
      ∷ []

-- `chunks_exact(2)` with `u16::from_le_bytes`.
unfoldable pub boot_order_of : List ℕ → List ℕ
boot_order_of [] = []
boot_order_of (byte ∷ []) = []
boot_order_of (low ∷ high ∷ bytes) = (low + 256 * high) ∷ boot_order_of bytes

unfoldable pub state_of_bytes : List ℕ → Result ℕ EfiError
state_of_bytes (zero ∷ []) = ok 0
state_of_bytes (suc zero ∷ []) = ok 1
state_of_bytes _ = err security_violation

unfoldable pub state_of : ℕ → ℕ → Result SecureBootState EfiError
state_of secure_boot setup =
    if secure_boot == 1
    then if setup == 0 then ok enabled else err security_violation
    else if secure_boot == 0
    then if setup == 0
      then ok disabled
      else if setup == 1
      then ok setup_mode
      else err security_violation
    else err security_violation

module _ {DevicePath : Type 0} (fw : Firmware DevicePath) where
  unfoldable pub read_variable : Text → Boot DevicePath (List ℕ)
  read_variable name = ask (get_variable name) λ h. fw.variable h name

  unfoldable pub read_state_variable : Text → Boot DevicePath ℕ
  unfolding read_variable state_of_bytes
  read_state_variable name = do value ← read_variable name; lift (state_of_bytes value)

  unfoldable pub secure_boot_state : Boot DevicePath SecureBootState
  unfolding read_state_variable state_of
  secure_boot_state = do
    secure_boot ← read_state_variable (codes "SecureBoot")
    setup ← read_state_variable (codes "SetupMode")
    lift (state_of secure_boot setup)

module _ {DevicePath : Type 0} where
  -- `iter.fold(BootConfig::new(first), BootConfig::with_device)`.
  unfoldable pub with_devices : BootConfig DevicePath → List DevicePath → BootConfig DevicePath
  unfolding Config.with_device
  with_devices config [] = config
  with_devices config (path ∷ paths) = with_devices (Config.with_device config path) paths

  unfoldable pub config_of : List DevicePath → Result (BootConfig DevicePath) EfiError
  unfolding Config.new with_devices
  config_of [] = err not_found
  config_of (first ∷ rest) = ok (with_devices (Config.new first) rest)

  unfoldable pub push : Option DevicePath → List DevicePath → List DevicePath
  push none device_paths = device_paths
  push (some path) device_paths = device_paths ++ path ∷ []

module _ {Node DevicePath : Type 0} (paths : Paths Node DevicePath) where
  -- The device path of an option that can be read, parsed and is active.
  unfoldable pub option_of : Result (List ℕ) EfiError → Option DevicePath
  unfolding parse_load_option
  option_of (ok bytes) = parse_load_option paths bytes
  option_of (err e) = none

module _ {Node DevicePath : Type 0} (paths : Paths Node DevicePath) (fw : Firmware DevicePath) where
  -- The loop over the option numbers, with the paths found so far.
  unfoldable pub read_options : List ℕ → List DevicePath → Boot DevicePath (List DevicePath)
  unfolding read_variable boot_option_variable_name option_of push
  read_options [] device_paths = lift (ok device_paths)
  read_options (number ∷ numbers) device_paths = do
    bytes ← attempt (read_variable fw (boot_option_variable_name number))
    read_options numbers (push (option_of paths bytes) device_paths)

  unfoldable pub discover_boot_options : Boot DevicePath (BootConfig DevicePath)
  unfolding read_variable boot_order_of read_options config_of
  discover_boot_options = do
    bytes ← read_variable fw (codes "BootOrder")
    if not (length bytes % 2 == 0) || length bytes == 0
        then lift (err not_found)
        else do device_paths ← read_options (boot_order_of bytes) []; lift (config_of device_paths)
