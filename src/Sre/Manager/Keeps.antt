-- ===== src/Sre/Manager/Keeps.antt =====
-- What every attempt keeps of the history, all that follows the security transition keeps.
use odp_platform_common.Common.{
  ℕ, Bool, Bool-cases, inl, inr, true, false, ◌&&◌, Option, Option-cases, none, some, List, [], ◌∷◌,
  refl,
}
use odp_platform_common.Common.Result.{Result, Result-cases, ok, err}
use odp_platform_common.Boot.Attempt.{boot_from_device_path}
use odp_platform_common.Boot.Config.{BootConfig}
use odp_platform_common.Boot.Events.{signal_ready_to_boot}
use odp_platform_common.Boot.Fallback.{Arch, fallback_boot_options}
use odp_platform_common.Boot.Firmware.{
  EfiError, ready_to_boot, simple_file_system, device_path, by_protocol, locate_handles,
  interface_of, History, Firmware,
}
use odp_platform_common.Boot.Firmware.Keeps.{Keeps, Stays, Keeps-bind}
use odp_platform_common.Boot.Paths.{Paths}
use odp_platform_common.Boot.Quiet.{signal_group-Keeps, connect_all-Keeps}
use odp_platform_common.Boot.Quiet.Options.{
  discover_boot_options-Keeps, fallback_boot_options-Keeps,
}
use odp_platform_common.Boot.Quiet.Queries.{discover_console_devices-Keeps}
use odp_platform_common.Boot.Variables.{discover_boot_options}
use odp_platform_common.Sre.Config.{SreBootManager}
use odp_platform_common.Sre.Flow.{Memory}
use odp_platform_common.Sre.Flow.Keeps.{run_sre_flow-Keeps, bp_has_sre_payload-Keeps}
use odp_platform_common.Sre.Hotkey.{SreHotkey, probe_sre_hotkey}
use odp_platform_common.Sre.Usb.{
  device_path_has_usb_node, option_at, first_usb, find_first_usb_sfs_device_path,
}
use odp_platform_common.Sre.Hotkey.Keeps.{when-Keeps, probe_sre_hotkey-Keeps}
use odp_platform_common.Sre.Manager.{
  dispatch_path, on_volume_up, on_volume_down, connect_recovery, dispatch_hotkey, is_skipped,
  try_options, try_candidates, try_fallback, options_tried, finish_pass, boot_pass, boot_passes,
  probe_payload, boot_normally, boot_locked,
}

module _ {Node DevicePath : Type 0} (paths : Paths Node DevicePath) (arch : Arch)
    (fw : Firmware DevicePath) (P : History DevicePath → Type 0) (stays : Stays P) where
  first_usb-Keeps :
      (handles : List ℕ) (h : History DevicePath) → P h → P (first_usb paths arch fw handles h).0
  unfolding first_usb
  first_usb-Keeps [] h p = p
  first_usb-Keeps (handle ∷ handles) h p =
      let h' = interface_of device_path handle ∷ h in
      let asked = stays (interface_of device_path handle) h refl p in
      let rest = first_usb-Keeps handles h' asked in
      elim (Result-cases (fw.handle_protocol h device_path handle)) [
        | inr (e, absent) ↦ rw (first_usb, absent) rest
        | inl (interface, there) ↦ elim (Option-cases (option_at paths arch fw h' interface)) [
          | inl other ↦ rw (first_usb, there, other) rest
          | inr (full, usb) ↦ rw (first_usb, there, usb) asked
        ]
      ]

  find_first_usb_sfs_device_path-Keeps :
      (h : History DevicePath) → P h → P (find_first_usb_sfs_device_path paths arch fw h).0
  unfolding find_first_usb_sfs_device_path
  find_first_usb_sfs_device_path-Keeps h p =
      let asked = stays (locate_handles (by_protocol simple_file_system)) h refl p in
      elim (Result-cases (fw.locate_handle_buffer h (by_protocol simple_file_system))) [
        | inr (e, failure) ↦ rw (find_first_usb_sfs_device_path, failure) asked
        | inl (handles, success) ↦
            rw (find_first_usb_sfs_device_path, success) (first_usb-Keeps handles _ asked)
      ]

module _ {Node DevicePath : Type 0} (paths : Paths Node DevicePath) (arch : Arch)
    (fw : Firmware DevicePath) (memory : Memory DevicePath) (P : History DevicePath → Type 0)
    (stays : Stays P)
    (attempts : (parent : ℕ) (path : DevicePath)
      → Keeps P (boot_from_device_path paths fw parent path)) where
  dispatch_path-Keeps :
      (image_handle : ℕ) (path : DevicePath)
      → Keeps P (dispatch_path paths arch fw memory image_handle path)
  unfolding dispatch_path signal_ready_to_boot
  dispatch_path-Keeps image_handle path h p =
      attempts image_handle path _ (signal_group-Keeps P stays fw ready_to_boot h p)

  on_volume_up-Keeps :
      (app : Option DevicePath) (image_handle : ℕ)
      → Keeps P (on_volume_up paths arch fw memory app image_handle)
  unfolding on_volume_up signal_ready_to_boot
  on_volume_up-Keeps (some path) image_handle h p = dispatch_path-Keeps image_handle path h p
  on_volume_up-Keeps none image_handle h p =
      run_sre_flow-Keeps paths arch fw P stays attempts memory image_handle _
        (signal_group-Keeps P stays fw ready_to_boot h p)

  on_volume_down-Keeps :
      (app : Option DevicePath) (image_handle : ℕ)
      → Keeps P (on_volume_down paths arch fw memory app image_handle)
  unfolding on_volume_down
  on_volume_down-Keeps app image_handle h p =
      let (h', usb) = find_first_usb_sfs_device_path paths arch fw h in
      let searched = find_first_usb_sfs_device_path-Keeps paths arch fw P stays h p in
      elim (Option-cases usb) [
        | inr (path, found) ↦
            rw (on_volume_down, found) (dispatch_path-Keeps image_handle path h' searched)
        | inl absent ↦ elim (Option-cases app) [
          | inr (path, configured) ↦
              rw (on_volume_down, absent, configured)
                (dispatch_path-Keeps image_handle path h' searched)
          | inl unset ↦ rw (on_volume_down, absent, unset) searched
        ]
      ]

  connect_recovery-Keeps : Keeps P (connect_recovery paths arch fw memory)
  unfolding connect_recovery
  connect_recovery-Keeps h p =
      discover_console_devices-Keeps paths P stays fw _ (connect_all-Keeps P stays fw h p)

  dispatch_hotkey-Keeps :
      (manager : SreBootManager DevicePath) (image_handle : ℕ) (hotkey : SreHotkey)
      → Keeps P (dispatch_hotkey paths arch fw memory manager image_handle hotkey)
  unfolding dispatch_hotkey connect_recovery
  dispatch_hotkey-Keeps manager image_handle SreHotkey.volume_up h p =
      on_volume_up-Keeps manager.sre_app_path image_handle _ (connect_recovery-Keeps h p)
  dispatch_hotkey-Keeps manager image_handle SreHotkey.volume_down h p =
      on_volume_down-Keeps manager.frontpage_app_path image_handle _ (connect_recovery-Keeps h p)
  dispatch_hotkey-Keeps manager image_handle SreHotkey.none h p = p

  try_options-Keeps :
      (bp_has_sre : Bool) (image_handle : ℕ) (devices : List DevicePath) (tried_any : Bool)
      (h : History DevicePath)
      → P h
      → P (try_options paths arch fw memory bp_has_sre image_handle devices tried_any h).0
  unfolding try_options
  try_options-Keeps bp_has_sre image_handle [] tried_any h p = p
  try_options-Keeps bp_has_sre image_handle (path ∷ devices) tried_any h p =
      elim (Bool-cases (is_skipped paths arch fw memory bp_has_sre path)) [
        | inl skipped ↦
            rw (try_options, skipped)
              (try_options-Keeps bp_has_sre image_handle devices tried_any h p)
        | inr tried ↦
            rw (try_options, tried)
              (try_options-Keeps bp_has_sre image_handle devices true _
                (dispatch_path-Keeps image_handle path h p))
      ]

  try_candidates-Keeps :
      (bp_has_sre : Bool) (image_handle : ℕ) (candidates : List DevicePath) (h : History DevicePath)
      → P h
      → P (try_candidates paths arch fw memory bp_has_sre image_handle candidates h)
  unfolding try_candidates
  try_candidates-Keeps bp_has_sre image_handle [] h p = p
  try_candidates-Keeps bp_has_sre image_handle (path ∷ candidates) h p =
      elim (Bool-cases (bp_has_sre && device_path_has_usb_node paths path)) [
        | inl skipped ↦
            rw (try_candidates, skipped)
              (try_candidates-Keeps bp_has_sre image_handle candidates h p)
        | inr tried ↦
            rw (try_candidates, tried)
              (try_candidates-Keeps bp_has_sre image_handle candidates _
                (attempts image_handle path h p))
      ]

  try_fallback-Keeps :
      (manager : SreBootManager DevicePath) (bp_has_sre : Bool) (image_handle : ℕ)
      (h : History DevicePath)
      → P h
      → P (try_fallback paths arch fw memory manager bp_has_sre image_handle h)
  unfolding try_fallback
  try_fallback-Keeps manager bp_has_sre image_handle h p =
      let (main, _) = dispatch_path paths arch fw memory image_handle manager.main_os_path h in
      let policy = manager.boot_source_policy in
      let (asked, found) = fallback_boot_options paths fw arch policy main in
      let p' =
        fallback_boot_options-Keeps paths P stays fw arch policy main
          (dispatch_path-Keeps image_handle manager.main_os_path h p) in
      elim (Result-cases found) [
        | inr (e, failure) ↦ rw (try_fallback, failure) p'
        | inl (candidates, success) ↦
            rw (try_fallback, success)
              (try_candidates-Keeps bp_has_sre image_handle candidates asked p')
      ]

  options_tried-Keeps :
      (bp_has_sre : Bool) (image_handle : ℕ) (found : Result (BootConfig DevicePath) EfiError)
      (h : History DevicePath)
      → P h
      → P (options_tried paths arch fw memory bp_has_sre image_handle found h).0
  unfolding options_tried
  options_tried-Keeps bp_has_sre image_handle (err e) h p = p
  options_tried-Keeps bp_has_sre image_handle (ok config) h p =
      try_options-Keeps bp_has_sre image_handle config.devices false h p

  finish_pass-Keeps :
      (manager : SreBootManager DevicePath) (bp_has_sre : Bool) (image_handle : ℕ)
      (r : History DevicePath × Bool)
      → P r.0
      → P (finish_pass paths arch fw memory manager bp_has_sre image_handle r)
  unfolding finish_pass
  finish_pass-Keeps manager bp_has_sre image_handle (h, true) p = p
  finish_pass-Keeps manager bp_has_sre image_handle (h, false) p =
      try_fallback-Keeps manager bp_has_sre image_handle h p

  boot_pass-Keeps :
      (manager : SreBootManager DevicePath) (bp_has_sre : Bool) (image_handle : ℕ)
      (h : History DevicePath)
      → P h
      → P (boot_pass paths arch fw memory manager bp_has_sre image_handle h)
  unfolding boot_pass
  boot_pass-Keeps manager bp_has_sre image_handle h p =
      let (read, discovered) = discover_boot_options paths fw h in
      finish_pass-Keeps manager bp_has_sre image_handle _ (
        options_tried-Keeps bp_has_sre image_handle discovered read
          (discover_boot_options-Keeps paths P stays fw h p))

  boot_passes-Keeps :
      (manager : SreBootManager DevicePath) (bp_has_sre : Bool) (image_handle : ℕ)
      (h : History DevicePath)
      → P h
      → P (boot_passes paths arch fw memory manager bp_has_sre image_handle h)
  unfolding boot_passes
  boot_passes-Keeps manager bp_has_sre image_handle h p =
      boot_pass-Keeps manager bp_has_sre image_handle _
        (connect_all-Keeps P stays fw _ (boot_pass-Keeps manager bp_has_sre image_handle h p))

  probe_payload-Keeps :
      (enabled : Bool) (h : History DevicePath)
      → P h
      → P (probe_payload paths arch fw memory enabled h).0
  unfolding probe_payload
  probe_payload-Keeps false h p = p
  probe_payload-Keeps true h p = bp_has_sre_payload-Keeps P stays fw h p

  boot_normally-Keeps :
      (manager : SreBootManager DevicePath) (image_handle : ℕ)
      → Keeps P (boot_normally paths arch fw memory manager image_handle)
  unfolding boot_normally
  boot_normally-Keeps manager image_handle h p =
      let (probed, bp_has_sre) = probe_payload paths arch fw memory manager.bp_sre_fallback h in
      when-Keeps P stays fw bp_has_sre _
        (run_sre_flow-Keeps paths arch fw P stays attempts memory image_handle) _
        (boot_passes-Keeps manager bp_has_sre image_handle probed
          (probe_payload-Keeps manager.bp_sre_fallback h p))

  pub boot_locked-Keeps :
      (manager : SreBootManager DevicePath) (image_handle : ℕ)
      → Keeps P (boot_locked paths arch fw memory manager image_handle)
  unfolding boot_locked
  boot_locked-Keeps manager image_handle h p =
      Keeps-bind P (probe_sre_hotkey fw h) _ (probe_sre_hotkey-Keeps P stays fw h p) λ hotkey h' p'.
        Keeps-bind P (dispatch_hotkey paths arch fw memory manager image_handle hotkey h') _
          (dispatch_hotkey-Keeps manager image_handle hotkey h' p')
          λ _ last q. boot_normally-Keeps manager image_handle last q
