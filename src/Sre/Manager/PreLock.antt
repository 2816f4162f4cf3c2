-- ===== src/Sre/Manager/PreLock.antt =====
-- What silent calls keep of the history, all before the security transition keeps.
use odp_platform_common.Common.{
  ℕ, zero, suc, Bool, Bool-cases, inl, inr, Option, Option-cases, none, some, ◌∷◌, refl, ap,
}
use odp_platform_common.Common.Result.{Result, Result-cases, ok, err}
use odp_platform_common.Boot.Firmware.{
  EfiError, ms_start_of_bds, dfci_start_of_bds, dispatch, History, Firmware,
}
use odp_platform_common.Boot.Events.{enter_locked_boot}
use odp_platform_common.Boot.Guard.{Locked, enter_locked_boot-Locked}
use odp_platform_common.Common.Action.{Ends-ok}
use odp_platform_common.Boot.Firmware.Keeps.{Stays}
use odp_platform_common.Boot.Quiet.{enter_locked_boot-Keeps, connect_all_skip_usb-Keeps}
use odp_platform_common.Sre.Config.{SreBootManager}
use odp_platform_common.Sre.Hotkey.{when, run_pre_lock_phase, signal_event_group}
use odp_platform_common.Sre.Hotkey.Keeps.{when-Keeps, process-Keeps, signal_event_group-Keeps}
use odp_platform_common.Sre.Manager.{dispatch_drivers, pre_lock_work}

module _ {DevicePath : Type 0} (P : History DevicePath → Type 0) (stays : Stays P)
    (fw : Firmware DevicePath) where
  dispatch_drivers-Keeps :
      (fuel : ℕ) (h : History DevicePath) → P h → P (dispatch_drivers fw fuel h).0
  unfolding dispatch_drivers
  dispatch_drivers-Keeps zero h p = p
  dispatch_drivers-Keeps (suc fuel) h p =
      let asked = stays dispatch h refl p in
      elim (Result-cases (fw.dispatch_drivers h)) [
        | inr (e, failure) ↦ rw (dispatch_drivers, failure) asked
        | inl (more, success) ↦ elim (Bool-cases more) [
          | inl yes_more ↦
              rw (dispatch_drivers, success, yes_more)
                (dispatch_drivers-Keeps fuel (dispatch ∷ h) asked)
          | inr no_more ↦ rw (dispatch_drivers, success, no_more) asked
        ]
      ]

  pub pre_lock_work-Keeps :
      (fuel : ℕ) (is_flash_update_boot : Bool) (manager : SreBootManager DevicePath)
      (h : History DevicePath)
      → P h
      → P (pre_lock_work fw fuel is_flash_update_boot manager h).0
  unfolding pre_lock_work
  pre_lock_work-Keeps fuel is_flash_update_boot manager h p =
      let (h', done) = dispatch_drivers fw fuel h in
      let dispatched = dispatch_drivers-Keeps fuel h p in
      elim (Option-cases done) [
        | inl out ↦ rw (pre_lock_work, out) dispatched
        | inr (_, ended) ↦
            rw (pre_lock_work, ended)
              (when-Keeps P stays fw manager.capsule_processing _
                (process-Keeps P stays fw is_flash_update_boot) _
                (connect_all_skip_usb-Keeps P stays fw h' dispatched))
      ]

  pub begin-Keeps :
      (b : Bool) (h : History DevicePath)
      → P h
      → P
          (when b
            (signal_event_group fw dfci_start_of_bds)
            (signal_event_group fw ms_start_of_bds h).0).0
  begin-Keeps b h p =
      when-Keeps P stays fw b _ (signal_event_group-Keeps P stays fw dfci_start_of_bds) _
        (signal_event_group-Keeps P stays fw ms_start_of_bds h p)

  -- How the phase before the transition ends.
  pub data Entered : History DevicePath × Option (Result (Unit {0}) EfiError) → Type 0 where
    still_dispatching : {h : History DevicePath} → P h → Entered (h, none)
    refused : {h : History DevicePath} {e : EfiError} → P h → Entered (h, some (err e))
    entered : {h : History DevicePath} → Locked fw h → P h → Entered (h, some (ok tt))

  pub run_pre_lock_phase-Entered :
      (fuel : ℕ) (is_flash_update_boot : Bool) (manager : SreBootManager DevicePath)
      (h : History DevicePath)
      → P h
      → Entered (
          run_pre_lock_phase fw manager.dfci_bds_signal
            (pre_lock_work fw fuel is_flash_update_boot manager)
            (enter_locked_boot fw)
            h)
  unfolding run_pre_lock_phase
  run_pre_lock_phase-Entered fuel is_flash_update_boot manager h p =
      let begun =
        (when manager.dfci_bds_signal (signal_event_group fw dfci_start_of_bds)
          (signal_event_group fw ms_start_of_bds h).0).0 in
      let (h', done) = pre_lock_work fw fuel is_flash_update_boot manager begun in
      let p' =
        pre_lock_work-Keeps fuel is_flash_update_boot manager begun
          (begin-Keeps manager.dfci_bds_signal h p) in
      let (h'', locked) = enter_locked_boot fw h' in
      let p'' = enter_locked_boot-Keeps P stays fw h' p' in
      elim (Option-cases done) [
        | inl out ↦ rw (run_pre_lock_phase, out) (still_dispatching p')
        | inr (_, worked) ↦ elim (Result-cases locked) [
          | inr (e, failure) ↦ rw (run_pre_lock_phase, worked, failure) (refused p'')
          | inl (_, success) ↦
              rw (run_pre_lock_phase, worked, success)
                (entered
                  (Ends-ok (enter_locked_boot fw h') (ap (λ r. (h'', r)) success)
                    (enter_locked_boot-Locked fw h'))
                  p'')
        ]
      ]
