-- ===== src/Boot/Simple/Order.antt =====
-- What a run of the simple boot manager does, in which order.
use odp_platform_common.Common.{
  ℕ, Bool, true, Option, Option-cases, none, some, List, [], ◌∷◌, ◌++◌, All, inl, inr, Bool-cases,
  if◌then◌else◌, ◌≡◌, refl, sym, subst, ap, ◌∙◌,
}
use odp_platform_common.Common.Result.{Result, Result-cases, ok, err}
use odp_platform_common.Common.Action.{continue_with-ok, ◌>>◌, lift, Ends-ok}
use odp_platform_common.Boot.Firmware.{EfiError, not_found, Call, History, Firmware, Boot}
use odp_platform_common.Boot.Firmware.Keeps.{is_silent, Keeps, Stays}
use odp_platform_common.Boot.Paths.{Paths}
use odp_platform_common.Boot.Config as Config
use odp_platform_common.Boot.Config.{BootConfig}
use odp_platform_common.Boot.Events.{enter_locked_boot}
use odp_platform_common.Boot.Connect.{connect_all, interleave_connect_and_dispatch}
use odp_platform_common.Boot.Console.{discover_console_devices}
use odp_platform_common.Boot.Attempt.{boot_from_device_path}
use odp_platform_common.Boot.Quiet.{
  enter_locked_boot-Keeps, interleave_connect_and_dispatch-Keeps, connect_all-Keeps,
}
use odp_platform_common.Boot.Quiet.Queries.{discover_console_devices-Keeps}
use odp_platform_common.Boot.Guard.{
  Locked, Guarded, Guarded-Stays, Secure, Secure-Stays, timer, IsOff, IsOff-Stays,
  enter_locked_boot-Locked, boot_from_device_path-Secure, boot_from_device_path-IsOff,
}
use odp_platform_common.Boot.Simple.Keeps.{
  NoImageSince, NoImageSince-Stays, boot_selected-Keeps, hotkey_pressed-Keeps,
}
use odp_platform_common.Boot.Simple.{
  SimpleBootManager, boot_each, hotkey_pressed, boot_selected, boot_locked, execute,
}

-- How a run ends: before the security transition with `P`, or after it with `Q`; there is no success.
pub data Outcome {DevicePath : Type 0} (P Q : History DevicePath → Type 0)
    : History DevicePath × Option (Result (Unit {0}) EfiError) → Type 0 where
  still_connecting : {h : History DevicePath} → P h → Outcome P Q (h, none)
  refused : {h : History DevicePath} {e : EfiError} → P h → Outcome P Q (h, some (err e))
  still_reading : {h : History DevicePath} → Q h → Outcome P Q (h, none)
  exhausted : {h : History DevicePath} → Q h → Outcome P Q (h, some (err not_found))

Outcome-same :
    {DevicePath : Type 0} {P : History DevicePath → Type 0}
    (r : History DevicePath × Option (Result (Unit {0}) EfiError))
    → Outcome P P r
    → P r.0
Outcome-same r (still_connecting p) = p
Outcome-same r (refused p) = p
Outcome-same r (still_reading p) = p
Outcome-same r (exhausted p) = p

module _ {Node DevicePath : Type 0} (paths : Paths Node DevicePath) (fw : Firmware DevicePath)
    (manager : SimpleBootManager DevicePath) (P : History DevicePath → Type 0) (stays : Stays P)
    (quiet : Keeps P manager.connect_strategy) (Q : History DevicePath → Type 0) (stays' : Stays Q)
    (attempts : (parent : ℕ) (path : DevicePath)
      → Keeps Q (boot_from_device_path paths fw parent path))
    (secured : (h : History DevicePath) → Locked fw h → P h → Q h) where
  failed_over :
      (config : BootConfig DevicePath) (h : History DevicePath)
      → ((Config.handle_failure config >> lift {A = Unit {0}} (err not_found)) h).1 ≡ err not_found
  unfolding Config.handle_failure
  failed_over config h = elim (Bool-cases config.has_failure_handler) [
    | inl yes_handler ↦ rw yes_handler
    | inr no_handler ↦ rw no_handler
  ]

  boot_each-ok :
      (image_handle : ℕ) (device_paths : List DevicePath) (h : History DevicePath)
      → (boot_each paths fw image_handle device_paths h).1 ≡ ok tt
  unfolding boot_each
  boot_each-ok image_handle [] h = refl
  boot_each-ok image_handle (device_path ∷ device_paths) h =
      boot_each-ok image_handle device_paths _

  boot_selected-not_found :
      (image_handle : ℕ) (pressed : Bool) (h : History DevicePath)
      → (boot_selected paths fw manager.config image_handle pressed h).1 ≡ err not_found
  unfolding boot_selected Config.handle_failure
  boot_selected-not_found image_handle pressed h =
      let config = manager.config in
      let devices = if pressed then config.hotkey_devices else config.devices in
      let (h', r) = boot_each paths fw image_handle devices h in
      let done = ap (λ r. (h', r)) (boot_each-ok image_handle devices h) in
      ap (λ r. r.1) (continue_with-ok (boot_each paths fw image_handle devices h) _ done)
      ∙ failed_over config h'

  boot_locked-Outcome :
      (fuel image_handle : ℕ) (h : History DevicePath)
      → Q h
      → Outcome P Q (boot_locked paths fw fuel manager.config image_handle h)
  unfolding boot_locked
  boot_locked-Outcome fuel image_handle h q =
      let (h', consoles) = discover_console_devices paths fw h in
      let (h'', pressed) = hotkey_pressed paths fw fuel manager.config.hotkey h' in
      let q'' =
        hotkey_pressed-Keeps paths fw Q stays' attempts fuel manager.config.hotkey h'
          (discover_console_devices-Keeps paths Q stays' fw h q) in
      elim (Option-cases pressed) [
        | inl out ↦ rw (boot_locked, out) (still_reading q'')
        | inr (use_hotkey_devices, keys) ↦
            let last =
              boot_selected-Keeps paths fw Q stays' attempts manager.config image_handle
                use_hotkey_devices h'' q'' in
            rw (boot_locked, keys, boot_selected-not_found image_handle use_hotkey_devices h'')
              (exhausted last)
      ]

  execute-Outcome_of :
      (fuel image_handle : ℕ) (h : History DevicePath)
      → P h
      → Outcome P Q (execute paths fw fuel manager image_handle h)
  unfolding execute
  execute-Outcome_of fuel image_handle h p =
      let (h', connected) = interleave_connect_and_dispatch fw manager.connect_strategy fuel h in
      let p' =
        interleave_connect_and_dispatch-Keeps P stays fw manager.connect_strategy quiet fuel h p in
      let (h'', locked) = enter_locked_boot fw h' in
      let p'' = enter_locked_boot-Keeps P stays fw h' p' in
      elim (Option-cases connected) [
        | inl out ↦ rw (execute, out) (still_connecting p')
        | inr (r, done) ↦ elim (Result-cases locked) [
          | inr (e, failure) ↦ rw (execute, done, failure) (refused p'')
          | inl (_, success) ↦
              let l =
                Ends-ok (enter_locked_boot fw h') (ap (λ r. (h'', r)) success)
                  (enter_locked_boot-Locked fw h') in
              rw (execute, done, success)
                (boot_locked-Outcome fuel image_handle h'' (secured h'' l p''))
        ]
      ]

-- Code of the platform that only makes silent calls.
abbrev pub Silent : {DevicePath A : Type 0} → Boot DevicePath A → Type 0
Silent {DevicePath} m =
    (h : History DevicePath)
    → (calls : List (Call DevicePath)) × ((m h).0 ≡ calls ++ h)
      × All (λ c. is_silent c ≡ true) calls

Stays-calls :
    {DevicePath : Type 0} (P : History DevicePath → Type 0) (stays : Stays P)
    (calls : List (Call DevicePath)) (h : History DevicePath)
    → All (λ c. is_silent c ≡ true) calls
    → P h
    → P (calls ++ h)
Stays-calls P stays [] h quiet p = p
Stays-calls P stays (c ∷ calls) h (silent, quiet) p =
    stays c (calls ++ h) silent (Stays-calls P stays calls h quiet p)

module _ {Node DevicePath : Type 0} (paths : Paths Node DevicePath) (fw : Firmware DevicePath)
    (manager : SimpleBootManager DevicePath) (silent : Silent manager.connect_strategy) where
  strategy-Keeps : (P : History DevicePath → Type 0) → Stays P → Keeps P manager.connect_strategy
  strategy-Keeps P stays h p =
      let (calls, all_calls, quiet) = silent h in
      subst P (sym all_calls) (Stays-calls P stays calls h quiet p)

  -- Where the connection strategy loads no image, the manager ends in one of two ways: before the
  -- security transition succeeds, having loaded and started no image; or after it, with every
  -- image in the history of calls loaded after the transition, and started right after its load
  -- and the timer of 300 seconds. In the second case the result is `NotFound`; there is no success.
  pub execute-Outcome :
      (fuel image_handle : ℕ) (h : History DevicePath)
      → Guarded fw h
      → Outcome
          (λ h'. NoImageSince h h' × Guarded fw h')
          (λ h'. Locked fw h' × Guarded fw h')
          (execute paths fw fuel manager image_handle h)
  execute-Outcome fuel image_handle h g =
      let before : History DevicePath → Type 0 = λ h'. NoImageSince h h' × Guarded fw h' in
      let stays : Stays before =
        λ c h' quiet p. (NoImageSince-Stays h c h' quiet p.0, Guarded-Stays fw c h' quiet p.1) in
      execute-Outcome_of paths fw manager before stays (strategy-Keeps before stays) (Secure fw)
        (Secure-Stays fw) (boot_from_device_path-Secure paths fw) (λ h' l p. (l, p.1)) fuel
        image_handle h (refl, g)

  -- Where the timer can always be disabled and the connection strategy leaves it alone, it is off
  -- at the end of the manager if it was at the start, however the manager ends.
  pub execute-IsOff :
      (fuel image_handle : ℕ) (h : History DevicePath)
      → ((h' : History DevicePath) → fw.set_watchdog_timer h' 0 ≡ ok tt)
      → timer fw h ≡ 0
      → timer fw (execute paths fw fuel manager image_handle h).0 ≡ 0
  execute-IsOff fuel image_handle h disarms off = Outcome-same _ (
      execute-Outcome_of paths fw manager (IsOff fw) (IsOff-Stays fw)
        (strategy-Keeps (IsOff fw) (IsOff-Stays fw)) (IsOff fw) (IsOff-Stays fw)
        (λ parent path. boot_from_device_path-IsOff paths fw parent path disarms) (λ h' l p. p) fuel
        image_handle h off)

module _ {DevicePath : Type 0} where
  Grown-Stays :
      (past : History DevicePath)
      → Stays (λ h.
        (calls : List (Call DevicePath)) × (h ≡ calls ++ past)
        × All (λ c. is_silent c ≡ true) calls)
  Grown-Stays past c h quiet (calls, grown, silent) =
      (c ∷ calls, ap (λ t. c ∷ t) grown, (quiet, silent))

  -- The default strategy is one.
  pub connect_all-Silent : (fw : Firmware DevicePath) → Silent (connect_all fw)
  connect_all-Silent fw h = connect_all-Keeps _ (Grown-Stays h) fw h ([], refl, tt)
