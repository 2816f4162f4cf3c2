-- ===== src/Boot/Fallback.antt =====
-- Boot options made from the connected file systems (uefi/crates/patina_boot/src/helpers.rs).
pub mod Approved
use mathlib.Core.List.{filter_map}
use odp_platform_common.Common.{
  ℕ, Bool, true, false, not, Option, none, some, List, [], ◌∷◌, ◌++◌, map, if◌then◌else◌,
}
use odp_platform_common.Common.Result.{Result, ok, err}
use odp_platform_common.Common.Action.{◌>>=◌, lift}
use odp_platform_common.Text.{Text, codes}
use odp_platform_common.Boot.Firmware.{
  EfiError, not_found, security_violation, simple_file_system, by_protocol, locate_handles, History,
  Firmware, Boot, ask,
}
use odp_platform_common.Boot.Paths.{Paths}
use odp_platform_common.Boot.Expand.{path_of}
use odp_platform_common.Boot.Policy.{
  BootSourcePolicy, has_sources, allows_security_state, allows_device,
}
use odp_platform_common.Boot.Variables.{secure_boot_state}

-- The target architectures.
pub data Arch : Type 0 where
  aarch64 : Arch
  x86_64 : Arch

abbrev pub fallback_os_loader_paths : Arch → List Text
fallback_os_loader_paths aarch64 =
    codes "\\EFI\\Microsoft\\Boot\\bootmgfw.efi" ∷ codes "\\EFI\\Boot\\bootaa64.efi" ∷ []
fallback_os_loader_paths x86_64 =
    codes "\\EFI\\Microsoft\\Boot\\bootmgfw.efi" ∷ codes "\\EFI\\Boot\\bootx64.efi" ∷ []

module _ {Node DevicePath : Type 0} (paths : Paths Node DevicePath) where
  unfoldable pub approved_volume :
      BootSourcePolicy DevicePath → Option DevicePath → Option DevicePath
  unfolding allows_device
  approved_volume policy none = none
  approved_volume policy (some volume) =
      if allows_device paths policy volume then some volume else none

  unfoldable pub candidate : Text → DevicePath → DevicePath
  candidate loader volume =
      paths.append_device_path volume (paths.from_nodes (paths.file_path loader ∷ []))

  -- The two loops: every volume for a loader before any for the next.
  unfoldable pub candidates : List Text → List DevicePath → List DevicePath
  unfolding candidate
  candidates [] volumes = []
  candidates (loader ∷ loaders) volumes =
      map (candidate loader) volumes ++ candidates loaders volumes

  unfoldable pub options_of : Arch → List DevicePath → Result (List DevicePath) EfiError
  unfolding candidates
  options_of arch [] = err not_found
  options_of arch (volume ∷ volumes) =
      ok (candidates (fallback_os_loader_paths arch) (volume ∷ volumes))

module _ {Node DevicePath : Type 0} (paths : Paths Node DevicePath) (fw : Firmware DevicePath) where
  -- The approved volumes of the handles.
  unfoldable pub volumes_of :
      BootSourcePolicy DevicePath
      → List ℕ
      → History DevicePath
      → History DevicePath × List DevicePath
  unfolding path_of approved_volume
  volumes_of policy [] h = (h, [])
  volumes_of policy (handle ∷ handles) h =
      let (h', path) = path_of fw handle h in
      let (h'', rest) = volumes_of policy handles h' in
      elim (approved_volume paths policy path) [
        | none ↦ (h'', rest)
        | some volume ↦ (h'', volume ∷ rest)
      ]

  unfoldable pub fallback_boot_options :
      Arch → BootSourcePolicy DevicePath → Boot DevicePath (List DevicePath)
  unfolding has_sources allows_security_state secure_boot_state volumes_of options_of
  fallback_boot_options arch policy =
      if not (has_sources paths policy) then lift (err not_found) else do
        state ← secure_boot_state fw
        if not (allows_security_state policy state) then lift (err security_violation) else do
          handles ←
              ask (locate_handles (by_protocol simple_file_system))
                λ h. fw.locate_handle_buffer h (by_protocol simple_file_system)
          λ h.
              let (h', volumes) = volumes_of policy handles h in (h', options_of paths arch volumes)
