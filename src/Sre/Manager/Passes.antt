-- ===== src/Sre/Manager/Passes.antt =====
-- What a pass of the SRE boot manager attempts.
use odp_platform_common.Common.{
  ℕ, Bool, Bool-cases, inl, inr, true, false, ◌||◌, if◌then◌else◌, List, [], ◌∷◌, ◌≡◌, refl, arith,
  sym, subst, ◌↔◌, ◌⊎◌, ap, ◌∙◌,
}
use odp_platform_common.Common.Result.{ok}
use odp_platform_common.Boot.Config.{BootConfig}
use odp_platform_common.Boot.Fallback.{Arch}
use odp_platform_common.Boot.Firmware.{History, Firmware}
use odp_platform_common.Boot.Paths.{Paths}
use odp_platform_common.Boot.Variables.{discover_boot_options}
use odp_platform_common.Sre.Config.{SreBootManager}
use odp_platform_common.Sre.Flow.{Memory, bp_has_sre_payload}
use odp_platform_common.Sre.Usb.{device_path_has_usb_node, device_path_has_fw_file_node}
use odp_platform_common.Sre.Manager.{
  dispatch_path, is_skipped, try_options, options_tried, finish_pass, try_fallback, boot_pass,
  probe_payload,
}

or_true : (t : Bool) → t || true ≡ true
or_true true = refl
or_true false = refl

module _ {Node DevicePath : Type 0} (paths : Paths Node DevicePath) (arch : Arch)
    (fw : Firmware DevicePath) (memory : Memory DevicePath) where
  -- The options that stay, in their order.
  unfoldable pub kept : Bool → List DevicePath → List DevicePath
  kept bp_has_sre [] = []
  kept bp_has_sre (path ∷ devices) =
      if is_skipped paths arch fw memory bp_has_sre path
      then kept bp_has_sre devices
      else path ∷ kept bp_has_sre devices

  unfoldable pub dispatch_each : ℕ → List DevicePath → History DevicePath → History DevicePath
  dispatch_each image_handle [] h = h
  dispatch_each image_handle (path ∷ devices) h =
      dispatch_each image_handle devices (dispatch_path paths arch fw memory image_handle path h).0

  unfoldable pub is_some_kept : List DevicePath → Bool
  is_some_kept [] = false
  is_some_kept (path ∷ devices) = true

  try_options-dispatch_each :
      (bp_has_sre : Bool) (image_handle : ℕ) (devices : List DevicePath) (tried : Bool)
      (h : History DevicePath)
      → try_options paths arch fw memory bp_has_sre image_handle devices tried h ≡ (
        dispatch_each image_handle (kept bp_has_sre devices) h,
        tried || is_some_kept (kept bp_has_sre devices),
      )
  unfolding try_options kept dispatch_each is_some_kept
  try_options-dispatch_each bp_has_sre image_handle [] true h = refl
  try_options-dispatch_each bp_has_sre image_handle [] false h = refl
  try_options-dispatch_each bp_has_sre image_handle (path ∷ devices) tried h =
      elim (Bool-cases (is_skipped paths arch fw memory bp_has_sre path)) [
        | inl skipped ↦
            rw (try_options, kept, skipped)
              (try_options-dispatch_each bp_has_sre image_handle devices tried h)
        | inr stays ↦
            let h' = (dispatch_path paths arch fw memory image_handle path h).0 in
            rw (try_options, kept, stays)
              (try_options-dispatch_each bp_has_sre image_handle devices true h'
                ∙ ap (λ t. (dispatch_each image_handle (kept bp_has_sre devices) h', t))
                    (sym (or_true tried)))
      ]

  is_skipped-usb :
      (bp_has_sre : Bool) (path : DevicePath)
      → is_skipped paths arch fw memory bp_has_sre path ≡ true
      → (bp_has_sre ≡ true)
        × ((device_path_has_usb_node paths path ≡ true)
            ⊎ (device_path_has_fw_file_node paths path ≡ true))
  unfolding is_skipped
  is_skipped-usb true path h = elim (Bool-cases (device_path_has_usb_node paths path)) [
    | inl usb ↦ (refl, inl usb)
    | inr other ↦ (refl, inr (rw other at h))
  ]
  is_skipped-usb false path h = cc

  is_skipped-stays :
      (path : DevicePath)
      → is_skipped paths arch fw memory true path ≡ false
      → (device_path_has_usb_node paths path ≡ false)
        × (device_path_has_fw_file_node paths path ≡ false)
  unfolding is_skipped
  is_skipped-stays path h = ground arith

  -- The boot partition is asked for, and holds a recovery image, after this history.
  abbrev pub RecoveryHeld : SreBootManager DevicePath → History DevicePath → Type 0
  RecoveryHeld manager before =
      (manager.bp_sre_fallback ≡ true) × ((bp_has_sre_payload fw before).1 ≡ true)

  -- The options that a pass attempts, in this order, given that some are passed over or not.
  pub data Attempted (Held : Type 0) : List DevicePath → List DevicePath → Type 0 where
    all_done : Attempted Held [] []
    passed_over :
        {path : DevicePath} {devices attempted : List DevicePath}
        → Held
        → (device_path_has_usb_node paths path ≡ true)
          ⊎ (device_path_has_fw_file_node paths path ≡ true)
        → Attempted Held devices attempted
        → Attempted Held (path ∷ devices) attempted
    attempted :
        {path : DevicePath} {devices attempted : List DevicePath}
        → (Held
            → (device_path_has_usb_node paths path ≡ false)
              × (device_path_has_fw_file_node paths path ≡ false))
        → Attempted Held devices attempted
        → Attempted Held (path ∷ devices) (path ∷ attempted)

  probe_payload-RecoveryHeld :
      (manager : SreBootManager DevicePath) (before : History DevicePath)
      → ((probe_payload paths arch fw memory manager.bp_sre_fallback before).1 ≡ true)
        ↔ RecoveryHeld manager before
  unfolding probe_payload
  probe_payload-RecoveryHeld manager before = elim (Bool-cases manager.bp_sre_fallback) [
    | inl on ↦ (
      λ h. (on, subst (λ t. (probe_payload paths arch fw memory t before).1 ≡ true) on h),
      λ h. subst (λ t. (probe_payload paths arch fw memory t before).1 ≡ true) (sym on) h.1,
    )
    | inr off ↦ (
      λ h.
          let wrong : false ≡ true =
            subst (λ t. (probe_payload paths arch fw memory t before).1 ≡ true) off h in
          cc,
      λ h. let e = h.0 in cc,
    )
  ]

  kept-Attempted :
      {Held : Type 0} (bp_has_sre : Bool) (devices : List DevicePath)
      → (bp_has_sre ≡ true) ↔ Held
      → Attempted Held devices (kept bp_has_sre devices)
  unfolding kept
  kept-Attempted bp_has_sre [] same = all_done
  kept-Attempted bp_has_sre (path ∷ devices) same =
      let rest = kept-Attempted bp_has_sre devices same in
      elim (Bool-cases (is_skipped paths arch fw memory bp_has_sre path)) [
        | inl skipped ↦
            let (holds, removable) = is_skipped-usb bp_has_sre path skipped in
            rw (kept, skipped) (passed_over (same.0 holds) removable rest)
        | inr stays ↦
            rw (kept, stays)
              (attempted
                (λ held.
                  is_skipped-stays path (
                    subst (λ t. is_skipped paths arch fw memory t path ≡ false) (same.1 held)
                      stays))
                rest)
      ]

  finish_pass-dispatch_each :
      (manager : SreBootManager DevicePath) (bp_has_sre : Bool) (image_handle : ℕ)
      (options : List DevicePath) (read : History DevicePath)
      → finish_pass paths arch fw memory manager bp_has_sre image_handle
          (dispatch_each image_handle options read, is_some_kept options)
        ≡ (if is_some_kept options
            then dispatch_each image_handle options read
            else try_fallback paths arch fw memory manager bp_has_sre image_handle read)
  unfolding finish_pass dispatch_each is_some_kept
  finish_pass-dispatch_each manager bp_has_sre image_handle [] read = refl
  finish_pass-dispatch_each manager bp_has_sre image_handle (path ∷ options) read = refl

  -- If the boot options can be discovered, a pass of the SRE boot manager attempts these in their
  -- order, each with its ReadyToBoot signal, but passes over those with a USB node or a firmware file
  -- node if, and only if, the fallback to the boot partition is configured and the probe before the
  -- passes found a recovery image there. Where none is left it goes on to the main OS path and the
  -- fallback's candidates, and otherwise it ends there.
  pub boot_pass-Attempted :
      (manager : SreBootManager DevicePath) (image_handle : ℕ) (before h read : History DevicePath)
      (config : BootConfig DevicePath)
      → discover_boot_options paths fw h ≡ (read, ok config)
      → (options : List DevicePath) × Attempted (RecoveryHeld manager before) config.devices options
        × (boot_pass paths arch fw memory manager
              (probe_payload paths arch fw memory manager.bp_sre_fallback before).1
              image_handle
              h
            ≡ (if is_some_kept options
                then dispatch_each image_handle options read
                else try_fallback paths arch fw memory manager
                    (probe_payload paths arch fw memory manager.bp_sre_fallback before).1
                    image_handle
                    read))
  unfolding boot_pass options_tried
  boot_pass-Attempted manager image_handle before h read config discovered =
      let bp_has_sre = (probe_payload paths arch fw memory manager.bp_sre_fallback before).1 in
      (
        kept bp_has_sre config.devices,
        kept-Attempted bp_has_sre config.devices (probe_payload-RecoveryHeld manager before),
        ap
              (λ r.
                finish_pass paths arch fw memory manager bp_has_sre image_handle
                  (options_tried paths arch fw memory bp_has_sre image_handle r.1 r.0))
              discovered
            ∙ ap (finish_pass paths arch fw memory manager bp_has_sre image_handle)
                (try_options-dispatch_each bp_has_sre image_handle config.devices false read)
            ∙ finish_pass-dispatch_each manager bp_has_sre image_handle
                (kept bp_has_sre config.devices) read,
      )
