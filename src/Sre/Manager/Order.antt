-- ===== src/Sre/Manager/Order.antt =====
-- What a run of the SRE boot manager does, in which order, and that it ends.
use odp_platform_common.Common.{
  ℕ, Bool, Bool-cases, Option, Option-cases, none, some, inl, inr, ◌∷◌, ◌==◌, ◌≡◌, refl, ap, ◌∙◌,
}
use odp_platform_common.Common.Result.{Result, Result-cases, ok, err}
use odp_platform_common.Common.Action.{continue_with-ok, ◌>>◌}
use odp_platform_common.Boot.Attempt.{boot_from_device_path}
use odp_platform_common.Boot.Fallback.{Arch}
use odp_platform_common.Boot.Firmware.{
  VolumeButton, locate_protocol, check_volume, EfiError, not_found, ms_button_services, History,
  Firmware,
}
use odp_platform_common.Boot.Firmware.Keeps.{Keeps, Stays}
use odp_platform_common.Boot.Guard.{
  Locked, Guarded, Guarded-Stays, Secure, Secure-Stays, timer, IsOff, IsOff-Stays,
  boot_from_device_path-Secure, boot_from_device_path-IsOff,
}
use odp_platform_common.Boot.Paths.{Paths}
use odp_platform_common.Boot.Simple.Keeps.{NoImageSince, NoImageSince-Stays}
use odp_platform_common.Sre.Config.{SreBootManager}
use odp_platform_common.Sre.Flow.{Memory}
use odp_platform_common.Sre.Usb.{find_first_usb_sfs_device_path}
use odp_platform_common.Sre.Hotkey.{
  hotkey_of, SreHotkey, check_button, read_buttons, buttons_at, probe_sre_hotkey,
}
use odp_platform_common.Sre.Manager.Keeps.{boot_locked-Keeps}
use odp_platform_common.Sre.Manager.PreLock.{Entered, run_pre_lock_phase-Entered}
use odp_platform_common.Sre.Manager.{
  dispatch_path, connect_recovery, on_volume_up, on_volume_down, dispatch_hotkey, boot_normally,
  boot_locked, continue_locked, execute,
}

-- How a run ends: before the security transition with `P`, or after it with `Q`; there is no success.
pub data Ending {DevicePath : Type 0} (P Q : History DevicePath → Type 0)
    : History DevicePath × Option (Result (Unit {0}) EfiError) → Type 0 where
  still_dispatching : {h : History DevicePath} → P h → Ending P Q (h, none)
  refused : {h : History DevicePath} {e : EfiError} → P h → Ending P Q (h, some (err e))
  exhausted : {h : History DevicePath} → Q h → Ending P Q (h, some (err not_found))

Ending-same :
    {DevicePath : Type 0} {P : History DevicePath → Type 0}
    (r : History DevicePath × Option (Result (Unit {0}) EfiError))
    → Ending P P r
    → P r.0
Ending-same r (still_dispatching p) = p
Ending-same r (refused p) = p
Ending-same r (exhausted p) = p

module _ {Node DevicePath : Type 0} (paths : Paths Node DevicePath) (arch : Arch)
    (fw : Firmware DevicePath) (memory : Memory DevicePath)
    (manager : SreBootManager DevicePath) where
  on_volume_down-ok :
      (app : Option DevicePath) (image_handle : ℕ) (h : History DevicePath)
      → (on_volume_down paths arch fw memory app image_handle h).1 ≡ ok tt
  unfolding on_volume_down dispatch_path
  on_volume_down-ok app image_handle h =
      elim (Option-cases (find_first_usb_sfs_device_path paths arch fw h).1) [
        | inr (path, found) ↦ rw (on_volume_down, found) refl
        | inl absent ↦ elim (Option-cases app) [
          | inr (path, configured) ↦ rw (on_volume_down, absent, configured) refl
          | inl unset ↦ rw (on_volume_down, absent, unset) refl
        ]
      ]

  on_volume_up-ok :
      (app : Option DevicePath) (image_handle : ℕ) (h : History DevicePath)
      → (on_volume_up paths arch fw memory app image_handle h).1 ≡ ok tt
  unfolding on_volume_up dispatch_path
  on_volume_up-ok none image_handle h = refl
  on_volume_up-ok (some path) image_handle h = refl

  dispatch_hotkey-ok :
      (image_handle : ℕ) (hotkey : SreHotkey) (h : History DevicePath)
      → (dispatch_hotkey paths arch fw memory manager image_handle hotkey h).1 ≡ ok tt
  unfolding dispatch_hotkey connect_recovery
  dispatch_hotkey-ok image_handle SreHotkey.none h = refl
  dispatch_hotkey-ok image_handle SreHotkey.volume_up h =
      on_volume_up-ok manager.sre_app_path image_handle _
  dispatch_hotkey-ok image_handle SreHotkey.volume_down h =
      on_volume_down-ok manager.frontpage_app_path image_handle _

  probe_sre_hotkey-ok :
      (h : History DevicePath) → (hotkey : SreHotkey) × ((probe_sre_hotkey fw h).1 ≡ ok hotkey)
  unfolding probe_sre_hotkey buttons_at read_buttons check_button
  probe_sre_hotkey-ok h = elim (Result-cases (fw.locate_protocol_unchecked h ms_button_services)) [
    | inr (e, absent) ↦ (SreHotkey.none, rw absent refl)
    | inl (protocol, located) ↦ elim (Bool-cases (protocol == 0)) [
      | inl null ↦ (SreHotkey.none, rw (located, null) refl)
      | inr there ↦
          let h' = locate_protocol ms_button_services ∷ h in
          let up = fw.volume_check h' VolumeButton.volume_up protocol in
          let h'' = check_volume VolumeButton.volume_up protocol ∷ h' in
          let down = fw.volume_check h'' VolumeButton.volume_down protocol in
          (hotkey_of up down, rw (located, there) refl)
    ]
  ]

  -- The boot behind the transition has no success.
  pub boot_locked-not_found :
      (image_handle : ℕ) (h : History DevicePath)
      → (boot_locked paths arch fw memory manager image_handle h).1 ≡ err not_found
  unfolding boot_locked boot_normally
  boot_locked-not_found image_handle h =
      let (h', probed) = probe_sre_hotkey fw h in
      let (hotkey, is_ok) = probe_sre_hotkey-ok h in
      let done = dispatch_hotkey-ok image_handle hotkey h' in
      let first =
        continue_with-ok (probe_sre_hotkey fw h)
          (λ hotkey.
            dispatch_hotkey paths arch fw memory manager image_handle hotkey
            >> boot_normally paths arch fw memory manager image_handle)
          (ap (λ r. (h', r)) is_ok) in
      let second =
        continue_with-ok (dispatch_hotkey paths arch fw memory manager image_handle hotkey h')
          (λ _. boot_normally paths arch fw memory manager image_handle)
          (ap (λ r. ((dispatch_hotkey paths arch fw memory manager image_handle hotkey h').0, r))
            done) in
      ap (λ r. r.1) (first ∙ second)

  module _ (P : History DevicePath → Type 0) (stays : Stays P) (Q : History DevicePath → Type 0)
      (stays' : Stays Q)
      (attempts : (parent : ℕ) (path : DevicePath)
        → Keeps Q (boot_from_device_path paths fw parent path))
      (secured : (h : History DevicePath) → Locked fw h → P h → Q h) where
    continue_locked-Ending :
        (image_handle : ℕ) (r : History DevicePath × Option (Result (Unit {0}) EfiError))
        → Entered P stays fw r
        → Ending P Q (continue_locked paths arch fw memory manager image_handle r)
    unfolding continue_locked
    continue_locked-Ending image_handle r (Entered.still_dispatching p) = still_dispatching p
    continue_locked-Ending image_handle r (Entered.refused p) = refused p
    continue_locked-Ending image_handle r (Entered.entered {h} l p) =
        rw (boot_locked-not_found image_handle h) (
          exhausted (
            boot_locked-Keeps paths arch fw memory Q stays' attempts manager image_handle h
              (secured h l p)))

    execute-Ending_of :
        (fuel : ℕ) (is_flash_update_boot : Bool) (image_handle : ℕ) (h : History DevicePath)
        → P h
        → Ending P Q (execute paths arch fw memory fuel is_flash_update_boot manager image_handle h)
    unfolding execute
    execute-Ending_of fuel is_flash_update_boot image_handle h p =
        continue_locked-Ending image_handle _
          (run_pre_lock_phase-Entered P stays fw fuel is_flash_update_boot manager h p)

  -- A run of the SRE boot manager ends in one of two ways: before the security transition succeeds,
  -- having loaded and started no image; or after it, with every image in the history of calls
  -- loaded after the transition, and started right after its load and the timer of 300 seconds,
  -- those of the hotkeys, of the two passes, of the fallback and of the boot partition included. In
  -- the second case the result is `NotFound`; there is no success.
  pub execute-Ending :
      (fuel : ℕ) (is_flash_update_boot : Bool) (image_handle : ℕ) (h : History DevicePath)
      → Guarded fw h
      → Ending
          (λ h'. NoImageSince h h' × Guarded fw h')
          (λ h'. Locked fw h' × Guarded fw h')
          (execute paths arch fw memory fuel is_flash_update_boot manager image_handle h)
  execute-Ending fuel is_flash_update_boot image_handle h g =
      let before : History DevicePath → Type 0 = λ h'. NoImageSince h h' × Guarded fw h' in
      let stays : Stays before =
        λ c h' quiet p. (NoImageSince-Stays h c h' quiet p.0, Guarded-Stays fw c h' quiet p.1) in
      execute-Ending_of before stays (Secure fw) (Secure-Stays fw)
        (boot_from_device_path-Secure paths fw) (λ h' l p. (l, p.1)) fuel is_flash_update_boot
        image_handle h (refl, g)

  -- Where the timer can always be disabled, it is off at the end of the SRE boot manager if it was
  -- at the start, however the manager ends.
  pub execute-timer :
      (fuel : ℕ) (is_flash_update_boot : Bool) (image_handle : ℕ) (h : History DevicePath)
      → ((h' : History DevicePath) → fw.set_watchdog_timer h' 0 ≡ ok tt)
      → timer fw h ≡ 0
      → timer fw (execute paths arch fw memory fuel is_flash_update_boot manager image_handle h).0
        ≡ 0
  execute-timer fuel is_flash_update_boot image_handle h disarms off = Ending-same _ (
      execute-Ending_of (IsOff fw) (IsOff-Stays fw) (IsOff fw) (IsOff-Stays fw)
        (λ parent path. boot_from_device_path-IsOff paths fw parent path disarms) (λ h' l p. p) fuel
        is_flash_update_boot image_handle h off)
