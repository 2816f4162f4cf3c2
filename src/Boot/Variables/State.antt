-- ===== src/Boot/Variables/State.antt =====
-- What the boot variables say.
use odp_platform_common.Common.{
  ℕ, zero, suc, ◌+◌, ◌*◌, ◌%◌, not, ◌||◌, Option-cases, List, [], ◌∷◌, ◌++◌, append-nil,
  append_assoc, length, ◌==◌, Bool-cases, inl, inr, ◌≡◌, ◌≢◌, sym, subst, ap, ◌∙◌, arith,
}
use mathlib.Core.List.{filter_map}
use odp_platform_common.Common.Result.{Result, Result-cases, ok, ok-injective}
use odp_platform_common.Common.Action.{Ends, failed, Ends-ok, Ends-of, Ends-bind}
use odp_platform_common.Text.{Text, codes}
use odp_platform_common.Boot.Firmware.{EfiError, get_variable, History, Firmware}
use odp_platform_common.Boot.Paths.{Paths}
use odp_platform_common.Boot.Policy.{SecureBootState, enabled, disabled, setup_mode}
use odp_platform_common.Boot.Config as Config
use odp_platform_common.Boot.Config.{BootConfig}
use odp_platform_common.Boot.Variables.{
  boot_option_variable_name, boot_order_of, read_variable, with_devices, config_of, option_of, push,
  read_options, discover_boot_options, state_of_bytes, read_state_variable, state_of,
  secure_boot_state,
}

-- The numbers in the bytes of `BootOrder`, two bytes for each, the low one first.
pub data BootOrder : List ℕ → List ℕ → Type 0 where
  last : BootOrder [] []
  next :
      {low high : ℕ} {bytes numbers : List ℕ}
      → BootOrder bytes numbers
      → BootOrder (low ∷ high ∷ bytes) ((low + 256 * high) ∷ numbers)

boot_order_of-BootOrder :
    (bytes : List ℕ) → length bytes % 2 ≡ 0 → BootOrder bytes (boot_order_of bytes)
unfolding boot_order_of
boot_order_of-BootOrder [] even = BootOrder.last
boot_order_of-BootOrder (byte ∷ []) even = absurd (omega arith)
boot_order_of-BootOrder (low ∷ high ∷ bytes) even =
    BootOrder.next (boot_order_of-BootOrder bytes (omega arith))

-- The values of `SecureBoot` and `SetupMode` for each state; no other pair has one.
pub data States : ℕ → ℕ → SecureBootState → Type 0 where
  enforcing : States 1 0 enabled
  not_enforcing : States 0 0 disabled
  provisioning : States 0 1 setup_mode

state_of-States :
    (secure_boot setup : ℕ) (state : SecureBootState)
    → state_of secure_boot setup ≡ ok state
    → States secure_boot setup state
unfolding state_of
state_of-States zero zero state h = subst (States 0 0) (ok-injective h) not_enforcing
state_of-States zero (suc zero) state h = subst (States 0 1) (ok-injective h) provisioning
state_of-States zero (suc (suc n)) state h = absurd (ground arith)
state_of-States (suc zero) zero state h = subst (States 1 0) (ok-injective h) enforcing
state_of-States (suc zero) (suc n) state h = absurd (ground arith)
state_of-States (suc (suc n)) setup state h = absurd (ground arith)

state_of_bytes-single :
    (bytes : List ℕ) (value : ℕ) → state_of_bytes bytes ≡ ok value → bytes ≡ value ∷ []
unfolding state_of_bytes
state_of_bytes-single [] value h = cc
state_of_bytes-single (zero ∷ []) value h = ap (λ t. t ∷ []) (ok-injective h)
state_of_bytes-single (suc zero ∷ []) value h = ap (λ t. t ∷ []) (ok-injective h)
state_of_bytes-single (suc (suc n) ∷ []) value h = cc
state_of_bytes-single (zero ∷ y ∷ bytes) value h = cc
state_of_bytes-single (suc zero ∷ y ∷ bytes) value h = cc
state_of_bytes-single (suc (suc n) ∷ y ∷ bytes) value h = cc

module _ {DevicePath : Type 0} (fw : Firmware DevicePath) where
  -- The variables that were read for a state: each a single byte, the two of a pair that has this
  -- state.
  abbrev pub StateRead : History DevicePath → SecureBootState → Type 0
  StateRead h state =
      (secure_boot : ℕ) × (setup : ℕ) × (fw.variable h (codes "SecureBoot") ≡ ok (secure_boot ∷ []))
      × (fw.variable (get_variable (codes "SecureBoot") ∷ h) (codes "SetupMode") ≡ ok (setup ∷ []))
      × States secure_boot setup state

  read_state_variable-single :
      (name : Text) (h : History DevicePath)
      → Ends
          (λ h' value. (h' ≡ get_variable name ∷ h) × (fw.variable h name ≡ ok (value ∷ [])))
          (read_state_variable fw name h)
  unfolding read_state_variable read_variable
  read_state_variable-single name h = elim (Result-cases (fw.variable h name)) [
    | inr (e, same) ↦ rw (read_state_variable, same) failed
    | inl (bytes, same) ↦
        rw (read_state_variable, same)
          (Ends-of (get_variable name ∷ h, state_of_bytes bytes)
            λ h' value e.
              let single = state_of_bytes-single bytes value (ap (λ r. r.1) e) in
              (sym (ap (λ r. r.0) e), ap ok single))
  ]

  -- A Secure Boot state is reported only where both variables are a single byte, and the pair is
  -- (1, 0), (0, 0) or (0, 1), for enabled, disabled and setup mode. Anything else is an error.
  pub secure_boot_state-StateRead :
      (h : History DevicePath) → Ends (λ _ state. StateRead h state) (secure_boot_state fw h)
  unfolding secure_boot_state
  secure_boot_state-StateRead h =
      Ends-bind (read_state_variable fw (codes "SecureBoot") h) _ λ h' secure_boot first.
        let (asked, one) = Ends-ok _ first (read_state_variable-single (codes "SecureBoot") h) in
        Ends-bind (read_state_variable fw (codes "SetupMode") h') _ λ h'' setup second.
          let (_, other) = Ends-ok _ second (read_state_variable-single (codes "SetupMode") h') in
          Ends-of (h'', state_of secure_boot setup)
            λ _ state e.
              let other' =
                subst (λ t. fw.variable t (codes "SetupMode") ≡ ok (setup ∷ [])) asked other in
              (
                secure_boot,
                setup,
                one,
                other',
                state_of-States secure_boot setup state (ap (λ r. r.1) e),
              )

with_devices-devices :
    {DevicePath : Type 0} (config : BootConfig DevicePath) (device_paths : List DevicePath)
    → (with_devices config device_paths).devices ≡ config.devices ++ device_paths
unfolding with_devices Config.with_device
with_devices-devices config [] = sym (append-nil config.devices)
with_devices-devices config (path ∷ device_paths) =
    with_devices-devices (Config.with_device config path) device_paths
    ∙ append_assoc config.devices (path ∷ []) device_paths

config_of-devices :
    {DevicePath : Type 0} (device_paths : List DevicePath) {config : BootConfig DevicePath}
    → config_of device_paths ≡ ok config
    → (config.devices ≡ device_paths) × (device_paths ≢ [])
unfolding config_of Config.new
config_of-devices [] h = cc
config_of-devices (first ∷ rest) h = (
  sym (ap (λ c. c.devices) (ok-injective h)) ∙ with_devices-devices (Config.new first) rest,
  λ e. cc,
)

module _ {Node DevicePath : Type 0} (paths : Paths Node DevicePath) (fw : Firmware DevicePath) where
  -- The device paths of the options with these numbers, if the variables do not change.
  module _ (store : Text → Result (List ℕ) EfiError)
      (unchanged : (h : History DevicePath) (name : Text) → fw.variable h name ≡ store name) where
    abbrev pub provisioned : List ℕ → List DevicePath
    provisioned numbers =
        filter_map (λ number. option_of paths (store (boot_option_variable_name number))) numbers

    read_options-provisioned :
        (numbers : List ℕ) (device_paths : List DevicePath) (h : History DevicePath)
        → (read_options paths fw numbers device_paths h).1
          ≡ ok (device_paths ++ provisioned numbers)
    unfolding read_options read_variable filter_map push
    read_options-provisioned [] device_paths h = ap ok (sym (append-nil device_paths))
    read_options-provisioned (number ∷ numbers) device_paths h =
        let name = boot_option_variable_name number in
        let bytes = unchanged h name in
        elim (Option-cases (option_of paths (store name))) [
          | inl e ↦
              rw (read_options, bytes, e)
                (read_options-provisioned numbers device_paths (get_variable name ∷ h))
          | inr (path, e) ↦
              rw (read_options, bytes, e)
                (read_options-provisioned numbers (device_paths ++ path ∷ [])
                    (get_variable name ∷ h)
                  ∙ ap ok (append_assoc device_paths (path ∷ []) (provisioned numbers)))
        ]

    -- If the variables do not change while they are read, the boot options that are found are the
    -- device paths of the provisioned options, in the order of `BootOrder` and at least one: the
    -- numbers, two bytes each and the low one first, whose variable can be read and parsed as an
    -- active option.
    pub discover_boot_options-provisioned :
        (h : History DevicePath)
        → Ends
            (λ _ config.
              (bytes : List ℕ) × (numbers : List ℕ) × (store (codes "BootOrder") ≡ ok bytes)
              × BootOrder bytes numbers
              × (config.devices ≡ provisioned numbers)
              × (config.devices ≢ []))
            (discover_boot_options paths fw h)
    unfolding discover_boot_options read_variable
    discover_boot_options-provisioned h =
        Ends-bind (read_variable fw (codes "BootOrder") h) _ λ h' bytes read.
          let stored = sym (unchanged h (codes "BootOrder")) ∙ ap (λ r. r.1) read in
          elim (Bool-cases (not (length bytes % 2 == 0) || length bytes == 0)) [
            | inl bad ↦ rw bad failed
            | inr fine ↦
                let even : length bytes % 2 ≡ 0 = ground arith in
                rw fine (
                  Ends-bind (read_options paths fw (boot_order_of bytes) [] h') _ λ h'' found all.
                    let same =
                      sym (ap (λ r. r.1) all)
                      ∙ read_options-provisioned (boot_order_of bytes) [] h' in
                    Ends-of (h'', config_of found)
                      λ _ config e.
                        let (devices, there) = config_of-devices found (ap (λ r. r.1) e) in
                        let listed = devices ∙ ok-injective same in
                        (
                          bytes,
                          boot_order_of bytes,
                          stored,
                          boot_order_of-BootOrder bytes even,
                          listed,
                          λ z. there (sym devices ∙ z),
                        ))
          ]
