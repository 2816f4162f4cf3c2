-- ===== src/Sre/Manager/Returns.antt =====
-- A run of the SRE boot manager comes to its end.
use odp_platform_common.Common.{
  ℕ, zero, suc, ◌+◌, ◌≤◌, ◌<◌, Bool, Bool-cases, true, Option, some, inl, inr, [], ◌∷◌, ◌≡◌, ◌≢◌,
  refl, ap, ◌∙◌, arith,
}
use odp_platform_common.Common.Result.{Result, Result-cases, ok, err}
use odp_platform_common.Boot.Fallback.{Arch}
use odp_platform_common.Boot.Firmware.{
  EfiError, not_found, dispatch, ms_start_of_bds, dfci_start_of_bds, History, Firmware,
}
use odp_platform_common.Boot.Paths.{Paths}
use odp_platform_common.Sre.Config.{SreBootManager}
use odp_platform_common.Sre.Flow.{Memory}
use odp_platform_common.Sre.Hotkey.{when, signal_event_group, run_pre_lock_phase}
use odp_platform_common.Sre.Manager.Order.{boot_locked-not_found}
use odp_platform_common.Sre.Manager.{dispatch_drivers, pre_lock_work, continue_locked, execute}

-- The calls of the dispatcher.
unfoldable pub dispatches : {DevicePath : Type 0} → History DevicePath → ℕ
dispatches [] = 0
dispatches (dispatch ∷ h) = suc (dispatches h)
dispatches (c ∷ h) = dispatches h

module _ {DevicePath : Type 0} (fw : Firmware DevicePath) (rounds : ℕ) where
  -- Once it has been called so often, the dispatcher reports no more drivers.
  abbrev pub Exhausts : Type 0
  Exhausts = (h : History DevicePath) → rounds ≤ dispatches h → fw.dispatch_drivers h ≢ ok true

  dispatch_drivers-step :
      (fuel : ℕ) (h : History DevicePath)
      → (fw.dispatch_drivers h ≡ ok true → (dispatch_drivers fw fuel (dispatch ∷ h)).1 ≡ some tt)
      → (dispatch_drivers fw (suc fuel) h).1 ≡ some tt
  unfolding dispatch_drivers
  dispatch_drivers-step fuel h next = elim (Result-cases (fw.dispatch_drivers h)) [
    | inr (e, failure) ↦ rw (dispatch_drivers, failure) refl
    | inl (more, success) ↦ elim (Bool-cases more) [
      | inr no_more ↦ rw (dispatch_drivers, success, no_more) refl
      | inl yes_more ↦ rw (dispatch_drivers, success, yes_more) (next (success ∙ ap ok yes_more))
    ]
  ]

  dispatch_drivers-ends :
      (fuel : ℕ) (h : History DevicePath)
      → rounds ≤ fuel + dispatches h
      → Exhausts
      → (dispatch_drivers fw (suc fuel) h).1 ≡ some tt
  unfolding dispatches
  dispatch_drivers-ends zero h enough ends =
      dispatch_drivers-step zero h λ more. absurd (ends h (omega arith) more)
  dispatch_drivers-ends (suc fuel) h enough ends =
      dispatch_drivers-step (suc fuel) h
        λ more. dispatch_drivers-ends fuel (dispatch ∷ h) (omega arith) ends

  pre_lock_work-ends :
      (fuel : ℕ) (is_flash_update_boot : Bool) (manager : SreBootManager DevicePath)
      (h : History DevicePath)
      → rounds ≤ fuel
      → Exhausts
      → (pre_lock_work fw (suc fuel) is_flash_update_boot manager h).1 ≡ some tt
  unfolding pre_lock_work
  pre_lock_work-ends fuel is_flash_update_boot manager h enough ends =
      let done = dispatch_drivers-ends fuel h (omega arith) ends in rw (pre_lock_work, done) refl

module _ {Node DevicePath : Type 0} (paths : Paths Node DevicePath) (arch : Arch)
    (fw : Firmware DevicePath) (memory : Memory DevicePath)
    (manager : SreBootManager DevicePath) where
  -- The result of a run that has ended.
  abbrev pub Failed : History DevicePath × Option (Result (Unit {0}) EfiError) → Type 0
  Failed r = (e : EfiError) × (r.1 ≡ some (err e))

  continue_locked-Failed :
      (image_handle : ℕ) (h : History DevicePath) (locked : Result (Unit {0}) EfiError)
      → Failed (continue_locked paths arch fw memory manager image_handle (h, some locked))
  unfolding continue_locked
  continue_locked-Failed image_handle h (err e) = (e, refl)
  continue_locked-Failed image_handle h (ok _) =
      (not_found, ap some (boot_locked-not_found paths arch fw memory manager image_handle h))

  -- If the driver dispatcher reports no more drivers once it has been called so many times, a run of
  -- the SRE boot manager with more fuel than that comes to its end, with an error.
  pub execute-Failed :
      (rounds fuel : ℕ) (is_flash_update_boot : Bool) (image_handle : ℕ) (h : History DevicePath)
      → rounds < fuel
      → Exhausts fw rounds
      → Failed (execute paths arch fw memory fuel is_flash_update_boot manager image_handle h)
  unfolding execute run_pre_lock_phase
  execute-Failed rounds zero is_flash_update_boot image_handle h enough ends = absurd (omega arith)
  execute-Failed rounds (suc fuel) is_flash_update_boot image_handle h enough ends =
      let begun =
        (when manager.dfci_bds_signal (signal_event_group fw dfci_start_of_bds)
          (signal_event_group fw ms_start_of_bds h).0).0 in
      let worked =
        pre_lock_work-ends fw rounds fuel is_flash_update_boot manager begun (omega arith) ends in
      rw (execute, run_pre_lock_phase, worked) (continue_locked-Failed image_handle _ _)
