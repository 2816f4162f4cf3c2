-- ===== src/Sre/Chainload.antt =====
-- The installation of the RAM disk, and the boot from its volume (uefi/crates/patina_sre/src/
-- bp_recovery.rs). The addresses of the protocol's state and of the device path, which the allocator
-- gives, are arguments.
pub mod Descends
use odp_platform_common.Common.{
  ℕ, ◌-◌, Bool, true, false, ◌||◌, Option, none, some, List, [], ◌∷◌, ◌++◌, take, ltb, ◌==◌,
  if◌then◌else◌,
}
use odp_platform_common.Common.Result.{Result, ok, err, ok_or}
use odp_platform_common.Common.Action.{◌>>=◌, ◌>>◌, lift}
use odp_platform_common.Text.{text_eq}
use odp_platform_common.Recovery.DevicePath.{device_path_size, build_file_path_node}
use odp_platform_common.Boot.Attempt.{boot_from_device_path}
use odp_platform_common.Boot.Fallback.{Arch}
use odp_platform_common.Boot.Firmware.{
  EfiError, invalid_parameter, not_found, block_io, device_path, simple_file_system, Protocol,
  by_protocol, connect, locate_path, install, uninstall, disconnect, locate_handles, interface_of,
  History, Firmware, Boot, ask, attempt,
}
use odp_platform_common.Boot.Paths.{Paths}
use odp_platform_common.Sre.Usb.{default_boot_file_path}

pub record RamDiskInstall : Type 0 where
  pub handle : ℕ
  pub device_path : ℕ
  pub state : ℕ

module _ {DevicePath : Type 0} (fw : Firmware DevicePath) where
  unfoldable pub install_on : Option ℕ → Protocol → ℕ → Boot DevicePath ℕ
  install_on handle protocol interface =
      ask (install handle protocol interface) λ h. fw.install_protocol h handle protocol interface

  unfoldable pub uninstall_from : ℕ → Protocol → ℕ → Boot DevicePath (Unit {0})
  uninstall_from handle protocol interface =
      ask (uninstall handle protocol interface)
        λ h. fw.uninstall_protocol h handle protocol interface

  -- Behind the installation of the device path: a failure takes the block protocol back, and a
  -- success connects the handle.
  unfoldable pub finish_install :
      RamDiskInstall → Result ℕ EfiError → Boot DevicePath RamDiskInstall
  unfolding uninstall_from
  finish_install disk (err e) = do
    attempt (uninstall_from disk.handle block_io disk.state)
    lift (err e)
  finish_install disk (ok _) = do
    attempt (ask (connect disk.handle true) λ h. fw.connect_controller h disk.handle true)
    lift (ok disk)

  unfoldable pub register_ram_disk : ℕ → ℕ → Boot DevicePath RamDiskInstall
  unfolding install_on finish_install
  register_ram_disk state_ptr dp_ptr = do
    handle ← install_on none block_io state_ptr
    added ← attempt (install_on (some handle) device_path dp_ptr)
    finish_install (record { handle = handle; device_path = dp_ptr; state = state_ptr }) added

  unfoldable pub teardown : RamDiskInstall → Boot DevicePath (Unit {0})
  unfolding uninstall_from
  teardown disk = do
    attempt (ask (disconnect disk.handle) λ h. fw.disconnect_controller h disk.handle)
    uninstall_from disk.handle device_path disk.device_path
    uninstall_from disk.handle block_io disk.state

  -- Whether the bytes of a path begin with those of the RAM disk's, less its end.
  unfoldable pub is_descendant : ℕ → List ℕ → List ℕ → Bool
  unfolding device_path_size text_eq
  is_descendant payload parent bytes =
      if ltb (device_path_size bytes) payload
      then false
      else text_eq (take payload bytes) (take payload parent)

  -- The loop over the handles, up to the first whose path descends from the RAM disk's.
  unfoldable pub find_descendant :
      ℕ → List ℕ → List ℕ → History DevicePath → History DevicePath × Option (List ℕ)
  unfolding is_descendant
  find_descendant payload parent [] h = (h, none)
  find_descendant payload parent (handle ∷ handles) h =
      let asked = interface_of device_path handle ∷ h in
      elim (fw.handle_protocol h device_path handle) [
        | err e ↦ find_descendant payload parent handles asked
        | ok interface ↦ elim (interface == 0) [
          | true ↦ find_descendant payload parent handles asked
          | false ↦ elim (is_descendant payload parent (fw.bytes_at asked interface)) [
            | true ↦ (asked, some (fw.bytes_at asked interface))
            | false ↦ find_descendant payload parent handles asked
          ]
        ]
      ]

module _ {Node DevicePath : Type 0} (paths : Paths Node DevicePath) (arch : Arch)
    (fw : Firmware DevicePath) where
  -- The path of the loader on the volume.
  unfoldable pub chainload_path : List ℕ → Result DevicePath EfiError
  unfolding device_path_size build_file_path_node
  chainload_path bytes =
      if ltb (device_path_size bytes) 4
      then err invalid_parameter
      else ok_or
          (paths.of_bytes (
            take (device_path_size bytes - 4) bytes
            ++ build_file_path_node (default_boot_file_path arch)))
          invalid_parameter

  -- From the bytes of the RAM disk's path on.
  unfoldable pub chainload_below : ℕ → List ℕ → Boot DevicePath (Unit {0})
  unfolding device_path_size find_descendant chainload_path boot_from_device_path
  chainload_below image_handle parent =
      if ltb (device_path_size parent) 4 then lift (err invalid_parameter) else do
        handles ←
            ask (locate_handles (by_protocol simple_file_system))
              λ h. fw.locate_handle_buffer h (by_protocol simple_file_system)
        chosen ← λ h.
            let (h', found) = find_descendant fw (device_path_size parent - 4) parent handles h in
            (h', ok_or found not_found)
        full ← lift (chainload_path chosen)
        boot_from_device_path paths fw image_handle full

  unfoldable pub chainload_from_ramdisk : ℕ → ℕ → Boot DevicePath (Unit {0})
  unfolding chainload_below
  chainload_from_ramdisk image_handle parent_dp = do
    ram_handle ← ask (locate_path parent_dp) λ h. fw.locate_device_path h parent_dp
    attempt (ask (connect ram_handle true) λ h. fw.connect_controller h ram_handle true)
    λ h. chainload_below image_handle (fw.bytes_at h parent_dp) h
