-- ===== src/Sre/Flow.antt =====
-- The boot from the boot partition, from the search for its controller on (uefi/crates/patina_sre/src/
-- bp_recovery.rs). Whether the buffer can be allocated, and the addresses that the allocator gives,
-- are a parameter.
pub mod Keeps
use odp_platform_common.Common.{ℕ, Bool, true, false, List, [], ◌∷◌, ◌^◌}
use odp_platform_common.Common.Result.{Result, ok, err, map_err}
use odp_platform_common.Common.Action.{◌>>=◌, ◌>>◌, lift}
use odp_platform_common.Recovery.Nvme.{
  Fault, status, PassThru, probe_max_transfer, read_bp_via_log_page, head_is_fat,
}
use odp_platform_common.Boot.Connect.{connect_all}
use odp_platform_common.Boot.Fallback.{Arch}
use odp_platform_common.Boot.Firmware.{
  EfiError, out_of_resources, nvm_express_pass_thru, locate_protocol, nvme, History, Firmware, Boot,
  ask, attempt,
}
use odp_platform_common.Boot.Paths.{Paths}
use odp_platform_common.Sre.Chainload.{
  RamDiskInstall, register_ram_disk, chainload_from_ramdisk, teardown,
}

pub record Memory (DevicePath : Type 0) : Type 0 where
  -- Whether a buffer of so many bytes can be reserved.
  pub try_reserve_exact : History DevicePath → ℕ → Bool
  -- Where the state of the block protocol and the device path of the RAM disk are put.
  pub state_ptr : History DevicePath → ℕ
  pub dp_ptr : History DevicePath → ℕ

abbrev pub target_bpid : ℕ
target_bpid = 1

abbrev pub bpsize_bytes : ℕ
bpsize_bytes = 2 ^ 30

module _ {DevicePath : Type 0} (fw : Firmware DevicePath) where
  -- The controller at an interface; its commands are calls.
  abbrev pub controller : ℕ → PassThru
  controller interface = record {
    St = History DevicePath;
    pass_thru = λ command h. (nvme interface command ∷ h, fw.pass_thru h interface command);
  }

  unfoldable pub fault_error : Fault → EfiError
  fault_error Fault.invalid_parameter = EfiError.invalid_parameter
  fault_error (status s) = fw.from_status s

  unfoldable pub read_partition : ℕ → ℕ → ℕ → Boot DevicePath (List ℕ)
  unfolding read_bp_via_log_page fault_error
  read_partition passthru chunk bytes h =
      let (h', read) = read_bp_via_log_page (controller passthru) target_bpid chunk bytes h in
      (h', map_err fault_error read)

  -- A buffer of this size, read in chunks of the size probed.
  unfoldable pub load_partition : Memory DevicePath → ℕ → ℕ → Boot DevicePath (List ℕ)
  unfolding probe_max_transfer read_partition
  load_partition memory bytes passthru h =
      let (probed, chunk) = probe_max_transfer (controller passthru) h in
      elim (memory.try_reserve_exact probed bytes) [
        | true ↦ read_partition passthru chunk bytes probed
        | false ↦ (probed, err out_of_resources)
      ]

  unfoldable pub bp_has_sre_payload : History DevicePath → History DevicePath × Bool
  unfolding head_is_fat
  bp_has_sre_payload h =
      let asked = locate_protocol nvm_express_pass_thru ∷ h in
      elim (fw.locate_protocol_unchecked h nvm_express_pass_thru) [
        | err e ↦ (asked, false)
        | ok passthru ↦ head_is_fat (controller passthru) asked
      ]

module _ {Node DevicePath : Type 0} (paths : Paths Node DevicePath) (arch : Arch)
    (fw : Firmware DevicePath) where
  -- With the RAM disk installed: it is taken down whatever the chainload gave.
  unfoldable pub boot_installed : ℕ → RamDiskInstall → Boot DevicePath (Unit {0})
  unfolding chainload_from_ramdisk teardown
  boot_installed image_handle disk = do
    result ← attempt (chainload_from_ramdisk paths arch fw image_handle disk.device_path)
    attempt (teardown fw disk)
    lift result

  unfoldable pub run_sre_flow : Memory DevicePath → ℕ → Boot DevicePath (Unit {0})
  unfolding connect_all load_partition register_ram_disk boot_installed
  run_sre_flow memory image_handle = do
    attempt (connect_all fw)
    passthru ←
        ask (locate_protocol nvm_express_pass_thru)
          λ h. fw.locate_protocol_unchecked h nvm_express_pass_thru
    load_partition fw memory bpsize_bytes passthru
    disk ← λ h. register_ram_disk fw (memory.state_ptr h) (memory.dp_ptr h) h
    boot_installed image_handle disk
