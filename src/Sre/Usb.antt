-- ===== src/Sre/Usb.antt =====
-- The USB volume that a hotkey boots (uefi/crates/patina_sre/src/sre_boot_manager.rs).
pub mod Found
use odp_platform_common.Common.{
  ℕ, ◌-◌, Bool, true, false, ◌&&◌, ◌||◌, Option, none, some, List, [], ◌∷◌, ◌++◌, take, any, ltb,
  ◌==◌,
}
use odp_platform_common.Common.Result.{Result, ok, err}
use odp_platform_common.Text.{Text, codes}
use odp_platform_common.Recovery.DevicePath.{device_path_size, build_file_path_node}
use odp_platform_common.Boot.Fallback.{Arch, aarch64, x86_64}
use odp_platform_common.Boot.Firmware.{
  device_path, simple_file_system, by_protocol, locate_handles, interface_of, History, Firmware,
}
use odp_platform_common.Boot.Paths.{
  Paths, messaging, media, usb, usb_class, usb_wwid, piwg_firmware_file, piwg_firmware_volume,
}

abbrev pub default_boot_file_path : Arch → Text
default_boot_file_path aarch64 = codes "\\EFI\\Boot\\bootaa64.efi"
default_boot_file_path x86_64 = codes "\\EFI\\Boot\\bootx64.efi"

module _ {Node DevicePath : Type 0} (paths : Paths Node DevicePath) where
  unfoldable pub device_path_has_fw_file_node : DevicePath → Bool
  device_path_has_fw_file_node dp = any (paths.iter dp) λ node.
      paths.kind node == media
      && (paths.sub_type node == piwg_firmware_file || paths.sub_type node == piwg_firmware_volume)

  unfoldable pub device_path_has_usb_node : DevicePath → Bool
  device_path_has_usb_node dp = any (paths.iter dp) λ node.
      paths.kind node == messaging
      && (paths.sub_type node == usb
          || (paths.sub_type node == usb_class || paths.sub_type node == usb_wwid))

module _ {Node DevicePath : Type 0} (paths : Paths Node DevicePath) (arch : Arch) where
  -- The path of the volume, less its end, and the default loader behind it.
  unfoldable pub with_loader : List ℕ → Option DevicePath
  unfolding device_path_size build_file_path_node
  with_loader bytes = elim (ltb (device_path_size bytes) 4) [
    | true ↦ none
    | false ↦ paths.of_bytes (
        take (device_path_size bytes - 4) bytes
        ++ build_file_path_node (default_boot_file_path arch))
  ]

  -- What a file system at an interface offers: its path, if it is on USB, with the loader.
  unfoldable pub usb_option : Option DevicePath → List ℕ → Option DevicePath
  unfolding device_path_has_usb_node with_loader
  usb_option none bytes = none
  usb_option (some dp) bytes = elim (device_path_has_usb_node paths dp) [
    | true ↦ with_loader bytes
    | false ↦ none
  ]

module _ {Node DevicePath : Type 0} (paths : Paths Node DevicePath) (arch : Arch)
    (fw : Firmware DevicePath) where
  unfoldable pub option_at : History DevicePath → ℕ → Option DevicePath
  unfolding usb_option
  option_at h interface = elim (interface == 0) [
    | true ↦ none
    | false ↦ usb_option paths arch (fw.path_at h interface) (fw.bytes_at h interface)
  ]

  -- The loop over the handles.
  unfoldable pub first_usb : List ℕ → History DevicePath → History DevicePath × Option DevicePath
  unfolding option_at
  first_usb [] h = (h, none)
  first_usb (handle ∷ handles) h =
      let asked = interface_of device_path handle ∷ h in
      elim (fw.handle_protocol h device_path handle) [
        | err e ↦ first_usb handles asked
        | ok interface ↦ elim (option_at asked interface) [
          | some full ↦ (asked, some full)
          | none ↦ first_usb handles asked
        ]
      ]

  unfoldable pub find_first_usb_sfs_device_path :
      History DevicePath → History DevicePath × Option DevicePath
  unfolding first_usb
  find_first_usb_sfs_device_path h =
      let asked = locate_handles (by_protocol simple_file_system) ∷ h in
      elim (fw.locate_handle_buffer h (by_protocol simple_file_system)) [
        | err e ↦ (asked, none)
        | ok handles ↦ first_usb handles asked
      ]
