-- ===== src/Boot/Quiet/Options.antt =====
-- The reads of the boot options and of the fallback's candidates are silent.
use odp_platform_common.Common.{
  ℕ, ◌%◌, inl, inr, not, ◌||◌, Option-cases, List, [], ◌∷◌, length, ◌==◌, refl,
}
use odp_platform_common.Text.{Text, codes}
use odp_platform_common.Boot.Firmware.{
  simple_file_system, by_protocol, locate_handles, get_variable, History, Firmware,
}
use odp_platform_common.Boot.Firmware.Keeps.{Keeps, Stays, Keeps-bind, Keeps-if}
use odp_platform_common.Boot.Expand.{path_of}
use odp_platform_common.Boot.Fallback.{Arch, approved_volume, volumes_of, fallback_boot_options}
use odp_platform_common.Boot.Paths.{Paths}
use odp_platform_common.Boot.Policy.{BootSourcePolicy, has_sources, allows_security_state}
use odp_platform_common.Boot.Quiet.Queries.{path_of-Keeps}
use odp_platform_common.Boot.Variables.{
  read_variable, read_state_variable, secure_boot_state, boot_option_variable_name, boot_order_of,
  read_options, discover_boot_options,
}

module _ {DevicePath : Type 0} (P : History DevicePath → Type 0) (stays : Stays P)
    (fw : Firmware DevicePath) where
  read_variable-Keeps : (name : Text) → Keeps P (read_variable fw name)
  unfolding read_variable
  read_variable-Keeps name h p = stays (get_variable name) h refl p

  read_state_variable-Keeps : (name : Text) → Keeps P (read_state_variable fw name)
  unfolding read_state_variable
  read_state_variable-Keeps name h p =
      Keeps-bind P (read_variable fw name h) _ (read_variable-Keeps name h p) λ value h' p'. p'

  secure_boot_state-Keeps : Keeps P (secure_boot_state fw)
  unfolding secure_boot_state
  secure_boot_state-Keeps h p =
      Keeps-bind P (read_state_variable fw (codes "SecureBoot") h) _
        (read_state_variable-Keeps (codes "SecureBoot") h p)
        λ secure h' p'.
          Keeps-bind P (read_state_variable fw (codes "SetupMode") h') _
            (read_state_variable-Keeps (codes "SetupMode") h' p') λ setup last q. q

module _ {Node DevicePath : Type 0} (paths : Paths Node DevicePath)
    (P : History DevicePath → Type 0) (stays : Stays P) (fw : Firmware DevicePath) where
  read_options-Keeps :
      (numbers : List ℕ) (device_paths : List DevicePath)
      → Keeps P (read_options paths fw numbers device_paths)
  unfolding read_options
  read_options-Keeps [] device_paths h p = p
  read_options-Keeps (number ∷ numbers) device_paths h p =
      read_options-Keeps numbers _ _
        (read_variable-Keeps P stays fw (boot_option_variable_name number) h p)

  pub discover_boot_options-Keeps : Keeps P (discover_boot_options paths fw)
  unfolding discover_boot_options
  discover_boot_options-Keeps h p =
      Keeps-bind P (read_variable fw (codes "BootOrder") h) _
        (read_variable-Keeps P stays fw (codes "BootOrder") h p)
        λ bytes.
          Keeps-if P (not (length bytes % 2 == 0) || length bytes == 0) _ _ (λ h' p'. p')
            λ h' p'.
              Keeps-bind P (read_options paths fw (boot_order_of bytes) [] h') _
                (read_options-Keeps (boot_order_of bytes) [] h' p') λ device_paths last q. q

  volumes_of-Keeps :
      (policy : BootSourcePolicy DevicePath) (handles : List ℕ) (h : History DevicePath)
      → P h
      → P (volumes_of paths fw policy handles h).0
  unfolding volumes_of
  volumes_of-Keeps policy [] h p = p
  volumes_of-Keeps policy (handle ∷ handles) h p =
      let (h', path) = path_of fw handle h in
      let rest = volumes_of-Keeps policy handles h' (path_of-Keeps P stays fw handle h p) in
      elim (Option-cases (approved_volume paths policy path)) [
        | inl refused ↦ rw (volumes_of, refused) rest
        | inr (volume, approved) ↦ rw (volumes_of, approved) rest
      ]

  pub fallback_boot_options-Keeps :
      (arch : Arch) (policy : BootSourcePolicy DevicePath)
      → Keeps P (fallback_boot_options paths fw arch policy)
  unfolding fallback_boot_options
  fallback_boot_options-Keeps arch policy =
      let by_file_system = by_protocol simple_file_system in
      Keeps-if P (not (has_sources paths policy)) _ _ (λ h p. p)
        λ h p.
          Keeps-bind P (secure_boot_state fw h) _ (secure_boot_state-Keeps P stays fw h p) λ state.
            Keeps-if P (not (allows_security_state policy state)) _ _ (λ h' p'. p')
              λ h' p'.
                Keeps-bind P
                  (locate_handles by_file_system ∷ h', fw.locate_handle_buffer h' by_file_system) _
                  (stays (locate_handles by_file_system) h' refl p')
                  λ handles h'' q. volumes_of-Keeps policy handles h'' q
