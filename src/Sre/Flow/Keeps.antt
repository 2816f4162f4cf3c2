-- ===== src/Sre/Flow/Keeps.antt =====
-- What every attempt keeps of the history, the flow keeps: its other calls are silent.
use odp_platform_common.Common.{
  ℕ, zero, suc, ◌+◌, ◌-◌, ◌||◌, not, ltb, ◌%◌, min, Bool-cases, inl, inr, true, none, some, ◌∷◌,
  ◌==◌, refl,
}
use odp_platform_common.Common.Result.{Result-cases}
use odp_platform_common.Recovery.Nvme.{
  identify_command, log_page_command, probe_max_transfer, transfer, read_chunks,
  read_bp_via_log_page, head_is_fat,
}
use odp_platform_common.Boot.Attempt.{boot_from_device_path}
use odp_platform_common.Boot.Fallback.{Arch}
use odp_platform_common.Boot.Firmware.{
  nvm_express_pass_thru, block_io, device_path, locate_protocol, connect, disconnect, install,
  uninstall, nvme, Protocol, History, Firmware,
}
use odp_platform_common.Boot.Firmware.Keeps.{Keeps, Stays, Keeps-bind}
use odp_platform_common.Boot.Paths.{Paths}
use odp_platform_common.Boot.Quiet.{connect_all-Keeps}
use odp_platform_common.Sre.Chainload.{
  RamDiskInstall, install_on, uninstall_from, finish_install, register_ram_disk, teardown,
}
use odp_platform_common.Sre.Chainload.Descends.{chainload_from_ramdisk-Keeps}
use odp_platform_common.Sre.Flow.{
  Memory, target_bpid, bpsize_bytes, controller, read_partition, load_partition, bp_has_sre_payload,
  boot_installed, run_sre_flow,
}

module _ {DevicePath : Type 0} (P : History DevicePath → Type 0) (stays : Stays P)
    (fw : Firmware DevicePath) where
  read_chunks-Keeps :
      (passthru fuel bp_id chunk_bytes bp_off remaining : ℕ) (h : History DevicePath)
      → P h
      → P (read_chunks (controller fw passthru) fuel bp_id chunk_bytes bp_off remaining h).0
  unfolding read_chunks transfer
  read_chunks-Keeps passthru zero bp_id chunk_bytes bp_off remaining h p = p
  read_chunks-Keeps passthru (suc fuel) bp_id chunk_bytes bp_off remaining h p =
      let size = min chunk_bytes remaining in
      let command = log_page_command bp_id bp_off size in
      let asked = stays (nvme passthru command) h refl p in
      elim (Bool-cases (remaining == 0)) [
        | inl done ↦ rw (read_chunks, done) p
        | inr more ↦ elim (Result-cases (fw.pass_thru h passthru command)) [
          | inr (e, failure) ↦ rw (read_chunks, more, failure) asked
          | inl (bytes, success) ↦
              let rest =
                read_chunks-Keeps passthru fuel bp_id chunk_bytes (bp_off + size) (remaining - size)
                  (nvme passthru command ∷ h) asked in
              elim (Result-cases
                (read_chunks (controller fw passthru) fuel bp_id chunk_bytes (bp_off + size)
                  (remaining - size) (nvme passthru command ∷ h)).1) [
                    | inr (e, failure) ↦ rw (read_chunks, more, success, failure) rest
                    | inl (others, read) ↦ rw (read_chunks, more, success, read) rest
                  ]
        ]
      ]

  read_bp_via_log_page-Keeps :
      (passthru bp_id chunk_bytes dest_len : ℕ) (h : History DevicePath)
      → P h
      → P (read_bp_via_log_page (controller fw passthru) bp_id chunk_bytes dest_len h).0
  unfolding read_bp_via_log_page
  read_bp_via_log_page-Keeps passthru bp_id chunk_bytes dest_len h p =
      let read = read_chunks-Keeps passthru dest_len bp_id chunk_bytes 0 dest_len h p in
      elim (Bool-cases
        (ltb chunk_bytes 4 || not (chunk_bytes % 4 == 0) || not (dest_len % 4 == 0))) [
          | inl refused ↦ rw (read_bp_via_log_page, refused) p
          | inr accepted ↦ rw (read_bp_via_log_page, accepted) read
        ]

  pub load_partition-Keeps :
      (memory : Memory DevicePath) (bytes passthru : ℕ)
      → Keeps P (load_partition fw memory bytes passthru)
  unfolding load_partition probe_max_transfer read_partition
  load_partition-Keeps memory bytes passthru h p =
      let (probed, chunk) = probe_max_transfer (controller fw passthru) h in
      let identified = stays (nvme passthru identify_command) h refl p in
      elim (Bool-cases (memory.try_reserve_exact probed bytes)) [
        | inl reserved ↦
            rw (load_partition, reserved)
              (read_bp_via_log_page-Keeps passthru target_bpid chunk bytes probed identified)
        | inr full ↦ rw (load_partition, full) identified
      ]

  pub bp_has_sre_payload-Keeps : (h : History DevicePath) → P h → P (bp_has_sre_payload fw h).0
  unfolding bp_has_sre_payload head_is_fat
  bp_has_sre_payload-Keeps h p =
      let asked = stays (locate_protocol nvm_express_pass_thru) h refl p in
      elim (Result-cases (fw.locate_protocol_unchecked h nvm_express_pass_thru)) [
        | inr (e, absent) ↦ rw (bp_has_sre_payload, absent) asked
        | inl (passthru, located) ↦
            rw (bp_has_sre_payload, located) (read_bp_via_log_page-Keeps passthru 1 512 512 _ asked)
      ]

  uninstall_from-Keeps :
      (handle : ℕ) (protocol : Protocol) (interface : ℕ)
      → Keeps P (uninstall_from fw handle protocol interface)
  unfolding uninstall_from
  uninstall_from-Keeps handle protocol interface h p =
      stays (uninstall handle protocol interface) h refl p

  pub register_ram_disk-Keeps :
      (state_ptr dp_ptr : ℕ) → Keeps P (register_ram_disk fw state_ptr dp_ptr)
  unfolding register_ram_disk install_on finish_install
  register_ram_disk-Keeps state_ptr dp_ptr h p =
      Keeps-bind P
        (install none block_io state_ptr ∷ h, fw.install_protocol h none block_io state_ptr) _
        (stays (install none block_io state_ptr) h refl p)
        λ handle h' p'.
          let added = stays (install (some handle) device_path dp_ptr) h' refl p' in
          let h'' = install (some handle) device_path dp_ptr ∷ h' in
          elim (Result-cases (fw.install_protocol h' (some handle) device_path dp_ptr)) [
            | inr (e, failure) ↦
                rw failure (uninstall_from-Keeps handle block_io state_ptr h'' added)
            | inl (same, success) ↦ rw success (stays (connect handle true) h'' refl added)
          ]

  pub teardown-Keeps : (disk : RamDiskInstall) → Keeps P (teardown fw disk)
  unfolding teardown
  teardown-Keeps disk h p =
      let h' = disconnect disk.handle ∷ h in
      Keeps-bind P (uninstall_from fw disk.handle device_path disk.device_path h') _
        (uninstall_from-Keeps disk.handle device_path disk.device_path h'
          (stays (disconnect disk.handle) h refl p))
        λ _ h'' p''. uninstall_from-Keeps disk.handle block_io disk.state h'' p''

module _ {Node DevicePath : Type 0} (paths : Paths Node DevicePath) (arch : Arch)
    (fw : Firmware DevicePath) (P : History DevicePath → Type 0) (stays : Stays P)
    (attempts : (parent : ℕ) (path : DevicePath)
      → Keeps P (boot_from_device_path paths fw parent path)) where
  pub run_sre_flow-Keeps :
      (memory : Memory DevicePath) (image_handle : ℕ)
      → Keeps P (run_sre_flow paths arch fw memory image_handle)
  unfolding run_sre_flow boot_installed
  run_sre_flow-Keeps memory image_handle h p =
      let connected = (connect_all-Keeps P stays fw h p) in
      Keeps-bind P
        (
          locate_protocol nvm_express_pass_thru ∷ _,
          fw.locate_protocol_unchecked _ nvm_express_pass_thru,
        )
        _ (stays (locate_protocol nvm_express_pass_thru) _ refl connected)
        λ passthru located p'.
          Keeps-bind P (load_partition fw memory bpsize_bytes passthru located) _
            (load_partition-Keeps P stays fw memory bpsize_bytes passthru located p')
            λ image read q.
              Keeps-bind P (register_ram_disk fw (memory.state_ptr read) (memory.dp_ptr read) read)
                _ (register_ram_disk-Keeps P stays fw _ _ read q)
                λ disk installed r. teardown-Keeps P stays fw disk _ (
                  chainload_from_ramdisk-Keeps paths arch fw P stays attempts image_handle
                    disk.device_path installed r)
