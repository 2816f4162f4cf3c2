-- ===== src/Sre/Tests.antt =====
-- The hotkey's volume and runs of the manager on a platform with a USB volume.
use odp_platform_common.Common.{
  ℕ, true, false, none, List, [], ◌∷◌, ◌≡◌, refl, if◌then◌else◌, arith,
}
use odp_platform_common.Boot.Fallback.{x86_64}
use odp_platform_common.Boot.Tests.Platform.{Demo, demo_paths, demo_fw, plain, internal, policy}
use odp_platform_common.Text.{text_eq}
use odp_platform_common.Boot.Config.{BootConfig}
use odp_platform_common.Boot.Firmware.{by_protocol, simple_file_system}
use odp_platform_common.Boot.Guard.{Locked, Guarded}
use odp_platform_common.Boot.Simple.Keeps.{NoImageSince}
use odp_platform_common.Boot.Variables.{discover_boot_options}
use odp_platform_common.Sre.Config.{SreBootManager}
use odp_platform_common.Sre.Flow.{Memory}
use odp_platform_common.Sre.Manager.{probe_payload, try_fallback, boot_pass, execute}
use odp_platform_common.Sre.Manager.Order.{Ending, execute-Ending}
use odp_platform_common.Sre.Manager.Passes.{
  RecoveryHeld, Attempted, is_some_kept, dispatch_each, boot_pass-Attempted,
}
use odp_platform_common.Sre.Manager.Returns.{Failed, execute-Failed}
use odp_platform_common.Common.Result.{ok}
use odp_platform_common.Sre.Chainload.{find_descendant}
use odp_platform_common.Sre.Chainload.Descends.{Descends, find_descendant-Descends}
use odp_platform_common.Sre.Hotkey.{SreHotkey, probe_sre_hotkey}
use odp_platform_common.Sre.Usb.{find_first_usb_sfs_device_path}
use odp_platform_common.Sre.Usb.Found.{OfUsbVolume, find_first_usb_sfs_device_path-OfUsbVolume}

no_button : (probe_sre_hotkey demo_fw []).1 ≡ ok SreHotkey.none
unfolding probe_sre_hotkey
no_button = refl

find_first_usb_sfs_device_path-OfUsbVolume_example :
    (handles : List ℕ) × (demo_fw.locate_handle_buffer [] (by_protocol simple_file_system)
      ≡ ok handles)
    × OfUsbVolume demo_paths x86_64 demo_fw handles (plain 3 5 ∷ [])
unfolding find_first_usb_sfs_device_path
find_first_usb_sfs_device_path-OfUsbVolume_example =
    find_first_usb_sfs_device_path-OfUsbVolume demo_paths x86_64 demo_fw [] (plain 3 5 ∷ []) refl

-- The path of a RAM disk, and that of the volume on it.
abbrev ram_disk : List ℕ
ram_disk = 3 ∷ 5 ∷ 4 ∷ 0 ∷ 0x7f ∷ 0xff ∷ 4 ∷ 0 ∷ []

find_descendant-Descends_example : Descends demo_fw 4 ram_disk (demo_fw.bytes_at [] 7)
unfolding find_descendant
find_descendant-Descends_example =
    find_descendant-Descends demo_fw 4 ram_disk (7 ∷ 8 ∷ []) [] (demo_fw.bytes_at [] 7) refl

abbrev demo_memory : Memory Demo
demo_memory = record {
  try_reserve_exact = λ h bytes. true;
  state_ptr = λ h. 100;
  dp_ptr = λ h. 200;
}

abbrev sre_manager : SreBootManager Demo
sre_manager = record {
  main_os_path = internal;
  sre_app_path = none;
  frontpage_app_path = none;
  bp_sre_fallback = true;
  dfci_bds_signal = true;
  capsule_processing = true;
  boot_source_policy = policy;
}

execute-Ending_example :
    Ending
      (λ h'. NoImageSince [] h' × Guarded demo_fw h')
      (λ h'. Locked demo_fw h' × Guarded demo_fw h')
      (execute demo_paths x86_64 demo_fw demo_memory 2 true sre_manager 1 [])
unfolding Guarded
execute-Ending_example =
    execute-Ending demo_paths x86_64 demo_fw demo_memory sre_manager 2 true 1 [] tt

execute-Failed_example :
    Failed demo_paths x86_64 demo_fw demo_memory sre_manager
      (execute demo_paths x86_64 demo_fw demo_memory 2 true sre_manager 1 [])
execute-Failed_example =
    execute-Failed demo_paths x86_64 demo_fw demo_memory sre_manager 1 2 true 1 [] (omega arith)
      λ h many e. cc

abbrev found : BootConfig Demo
found = record {
  devices = (plain 1 1 ∷ []) ∷ [];
  hotkey = none;
  hotkey_devices = [];
  has_failure_handler = false;
}

boot_pass-Attempted_example :
    (options : List Demo) × Attempted demo_paths x86_64 demo_fw demo_memory
      (RecoveryHeld demo_paths x86_64 demo_fw demo_memory sre_manager [])
      ((plain 1 1 ∷ []) ∷ [])
      options
    × (boot_pass demo_paths x86_64 demo_fw demo_memory sre_manager
          (probe_payload demo_paths x86_64 demo_fw demo_memory sre_manager.bp_sre_fallback []).1
          1
          []
        ≡ (if is_some_kept demo_paths x86_64 demo_fw demo_memory options
            then dispatch_each demo_paths x86_64 demo_fw demo_memory 1 options
                (discover_boot_options demo_paths demo_fw []).0
            else try_fallback demo_paths x86_64 demo_fw demo_memory sre_manager
                (probe_payload demo_paths x86_64 demo_fw demo_memory sre_manager.bp_sre_fallback
                  []).1
                1
                (discover_boot_options demo_paths demo_fw []).0))
unfolding discover_boot_options text_eq
boot_pass-Attempted_example =
    boot_pass-Attempted demo_paths x86_64 demo_fw demo_memory sre_manager 1 [] []
      (discover_boot_options demo_paths demo_fw []).0 found refl
