-- ===== src/Boot/Console.antt =====
-- Console devices (uefi/crates/patina_boot/src/helpers.rs).
use odp_platform_common.Common.{ℕ, true, false, Option, none, some, List, [], ◌∷◌, contains}
use odp_platform_common.Common.Result.{ok, err}
use odp_platform_common.Common.Action.{◌>>=◌, ◌>>◌, lift}
use odp_platform_common.Text.{Text, codes}
use odp_platform_common.Boot.Firmware.{
  Protocol, simple_text_input, simple_text_output, graphics_output, by_protocol, locate_handles,
  set_variable, Firmware, Boot, ask, attempt,
}
use odp_platform_common.Boot.Paths.{Paths}
use odp_platform_common.Boot.Expand.{path_of}

module _ {Node DevicePath : Type 0} (paths : Paths Node DevicePath) (fw : Firmware DevicePath) where
  -- `result` with another device path.
  unfoldable pub add_instance : Option DevicePath → Option DevicePath → Option DevicePath
  add_instance result none = result
  add_instance none (some path) = some path
  add_instance (some multi) (some path) = some (paths.append_device_path_instances multi path)

  -- The loop over the handles of a protocol.
  unfoldable pub collect_handles :
      List ℕ → Option DevicePath → List ℕ → Boot DevicePath (Option DevicePath × List ℕ)
  unfolding path_of add_instance
  collect_handles [] result seen h = (h, ok (result, seen))
  collect_handles (handle ∷ handles) result seen h = elim (contains seen handle) [
    | true ↦ collect_handles handles result seen h
    | false ↦
        let (h', path) = path_of fw handle h in
        collect_handles handles (add_instance result path) (handle ∷ seen) h'
  ]

  -- The loop over the protocols.
  unfoldable pub collect_protocols :
      List Protocol → Option DevicePath → List ℕ → Boot DevicePath (Option DevicePath)
  unfolding collect_handles
  collect_protocols [] result seen = lift (ok result)
  collect_protocols (guid ∷ guids) result seen = do
    located ←
        attempt (
          ask (locate_handles (by_protocol guid)) λ h. fw.locate_handle_buffer h (by_protocol guid))
    elim located [
      | err e ↦ collect_protocols guids result seen
      | ok handles ↦ do
        collected ← collect_handles handles result seen
        collect_protocols guids collected.0 collected.1
    ]

  unfoldable pub build_multi_instance_device_path :
      List Protocol → Boot DevicePath (Option DevicePath)
  unfolding collect_protocols
  build_multi_instance_device_path guids = collect_protocols guids none []

  -- A variable for each console, if a device path was found; a failure to write it is logged.
  unfoldable pub write_console : Text → List Protocol → Boot DevicePath (Unit {0})
  unfolding build_multi_instance_device_path
  write_console name guids = do
    device_path ← build_multi_instance_device_path guids
    elim device_path [
      | none ↦ lift (ok tt)
      | some path ↦ do
        attempt (
            ask (set_variable name (paths.as_bytes path))
              λ h. fw.write_variable h name (paths.as_bytes path))
        lift (ok tt)
    ]

  unfoldable pub discover_console_devices : Boot DevicePath (Unit {0})
  unfolding write_console
  discover_console_devices = do
    write_console (codes "ConIn") (simple_text_input ∷ [])
    write_console (codes "ConOut") (simple_text_output ∷ graphics_output ∷ [])
    write_console (codes "ErrOut") (simple_text_output ∷ [])
    lift (ok tt)
