-- ===== src/Boot/Tests.antt =====
-- Runs on a platform with an NVMe partition and a USB volume, and the theorems at it.
pub mod Platform
use mathlib.Core.List.{filter_map}
use odp_platform_common.Common.{
  ℕ, ◌%◌, true, false, Option, none, some, List, [], ◌∷◌, ◌++◌, Memᴰ, length, get_or, ◌==◌,
  if◌then◌else◌, ◌≡◌, ◌≢◌, ◌⊎◌, ◌↔◌, refl, sym, ap, ◌∙◌, ◌≤◌, ◌<◌, arith,
}
use odp_platform_common.Common.Result.{Result, ok, err, ok-injective}
use odp_platform_common.Common.Action.{Ends}
use odp_platform_common.Text.{Text, codes, text_eq}
use odp_platform_common.Boot.Firmware.{
  EfiError, not_found, device_path, by_protocol, locate_handles, History, Firmware,
}
use odp_platform_common.Boot.Paths.{HardDrive, Paths}
use odp_platform_common.Boot.Policy.{BootSourcePolicy, allows_device, has_sources}
use odp_platform_common.Boot.Policy.Allows.{
  HasDrive, OnUsb, allows_device_iff, has_sources-allows_device,
}
use odp_platform_common.Boot.Connect.{
  connect_all, connect_all_skip_usb, interleave_connect_and_dispatch,
}
use odp_platform_common.Boot.Connect.Once.{PassesDone, connect_all-Done}
use odp_platform_common.Boot.Connect.Settles.{Counted, interleave_connect_and_dispatch-Settles}
use odp_platform_common.Boot.Connect.SkipUsb.{Checked, connect_all_skip_usb-Checked}
use odp_platform_common.Boot.Expand.{
  expansion, expand_device_path, is_partial_device_path, has_real_node, find_drive, after_drive,
}
use odp_platform_common.Boot.Expand.Unique.{handle_paths, unique, expand_device_path-unique}
use odp_platform_common.Boot.LoadOption.{parse_load_option, validate_device_path_nodes}
use odp_platform_common.Boot.LoadOption.Layout.{
  IsOption, Walks, parse_load_option_iff, validate_device_path_nodes_iff,
}
use odp_platform_common.Boot.Variables.{boot_order_of, discover_boot_options, secure_boot_state}
use odp_platform_common.Boot.Variables.State.{
  StateRead, secure_boot_state-StateRead, provisioned, BootOrder, discover_boot_options-provisioned,
}
use odp_platform_common.Boot.Fallback.{x86_64, fallback_boot_options}
use odp_platform_common.Boot.Fallback.Approved.{Approved, fallback_boot_options-Approved}
use odp_platform_common.Boot.Guard.{Locked, Guarded, timer}
use odp_platform_common.Boot.Simple.{SimpleBootManager, execute}
use odp_platform_common.Boot.Simple.Keeps.{NoImageSince}
use odp_platform_common.Boot.Simple.Order.{
  Outcome, connect_all-Silent, execute-Outcome, execute-IsOff,
}
use odp_platform_common.Boot.Tests.Platform.{
  Node, Demo, partition, plain, drive_node, demo_paths, internal, usb_stick, short_form,
  option_bytes, store, demo_fw, policy, manager,
}

exhausts : (execute demo_paths demo_fw 3 manager 2 []).1 ≡ some (err not_found)
unfolding execute connect_all
exhausts = refl

expands : (expand_device_path demo_paths demo_fw short_form []).1 ≡ ok (internal ++ plain 4 4 ∷ [])
unfolding expand_device_path
expands = refl

discovers :
    (discover_boot_options demo_paths demo_fw []).1
    ≡ ok (record {
      devices = (plain 1 1 ∷ []) ∷ [];
      hotkey = none;
      hotkey_devices = [];
      has_failure_handler = false;
    })
unfolding discover_boot_options text_eq
discovers = refl

execute-Outcome_example :
    Outcome
      (λ h'. NoImageSince [] h' × Guarded demo_fw h')
      (λ h'. Locked demo_fw h' × Guarded demo_fw h')
      (execute demo_paths demo_fw 3 manager 2 [])
unfolding Guarded
execute-Outcome_example =
    execute-Outcome demo_paths demo_fw manager (connect_all-Silent demo_fw) 3 2 [] tt

allows_device_iff_example : (allows_device demo_paths policy internal ≡ true) ↔ (
    (OnUsb demo_paths internal × (policy.removable_media ≡ true))
    ⊎ (¬ OnUsb demo_paths internal
        × ((approved : Demo) × Memᴰ approved policy.approved_internal_devices
            × (hd : HardDrive) × HasDrive demo_paths approved hd
            × HasDrive demo_paths internal hd)))
allows_device_iff_example = allows_device_iff demo_paths policy internal

connect_all-Done_example : PassesDone demo_fw [] 10 [] (connect_all demo_fw []).0
unfolding connect_all
connect_all-Done_example = connect_all-Done demo_fw [] (connect_all demo_fw []).0 refl

connect_all_skip_usb-Checked_example : Checked demo_fw [] (connect_all_skip_usb demo_fw []).0
connect_all_skip_usb-Checked_example = connect_all_skip_usb-Checked demo_fw []

expand_device_path-unique_example :
    (expand_device_path demo_paths demo_fw short_form []).1
    ≡ unique (
        filter_map
          (expansion demo_paths partition (after_drive demo_paths false short_form))
          (handle_paths demo_fw (7 ∷ 8 ∷ []) (locate_handles (by_protocol device_path) ∷ [])))
unfolding has_real_node is_partial_device_path find_drive
expand_device_path-unique_example =
    expand_device_path-unique demo_paths demo_fw short_form partition [] (7 ∷ 8 ∷ []) refl refl refl
      refl

parse_load_option_iff_example :
    (parse_load_option demo_paths option_bytes ≡ some (plain 1 1 ∷ []))
    ↔ IsOption demo_paths option_bytes (plain 1 1 ∷ [])
parse_load_option_iff_example = parse_load_option_iff demo_paths option_bytes (plain 1 1 ∷ [])

secure_boot_state-StateRead_example :
    Ends (λ _ state. StateRead demo_fw [] state) (secure_boot_state demo_fw [])
secure_boot_state-StateRead_example = secure_boot_state-StateRead demo_fw []

discover_boot_options-provisioned_example :
    Ends
      (λ _ config.
        (bytes : List ℕ) × (numbers : List ℕ) × (store (codes "BootOrder") ≡ ok bytes)
        × BootOrder bytes numbers
        × (config.devices ≡ provisioned demo_paths demo_fw store (λ h name. refl) numbers)
        × (config.devices ≢ []))
      (discover_boot_options demo_paths demo_fw [])
discover_boot_options-provisioned_example =
    discover_boot_options-provisioned demo_paths demo_fw store (λ h name. refl) []

fallback_boot_options-Approved_example :
    Ends
      (λ _ options. Approved demo_paths demo_fw policy x86_64 [] options)
      (fallback_boot_options demo_paths demo_fw x86_64 policy [])
fallback_boot_options-Approved_example =
    fallback_boot_options-Approved demo_paths demo_fw policy x86_64 []

two_handles : (h : History Demo) (count : ℕ) → Counted demo_fw h count → count ≡ 2
two_handles h count (handles, located, sized) = sym sized ∙ ap length (sym (ok-injective located))

interleave_connect_and_dispatch-Settles_example :
    (r : Result (Unit {0}) EfiError) × ((interleave_connect_and_dispatch demo_fw
        (connect_all demo_fw)
        3
        []).1
      ≡ some r)
interleave_connect_and_dispatch-Settles_example =
    interleave_connect_and_dispatch-Settles demo_fw (connect_all demo_fw)
      (λ h. ((connect_all-Silent demo_fw h).0, (connect_all-Silent demo_fw h).1)) 2
      (λ h count c. omega (arith, two_handles h count c))
      (λ h past count before later c c'.
        omega (arith, two_handles past before c, two_handles h count c'))
      3 [] (omega arith)
