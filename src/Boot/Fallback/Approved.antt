-- ===== src/Boot/Fallback/Approved.antt =====
-- Which boot options are made, and in which order.
use odp_platform_common.Common.{
  ℕ, Bool, true, false, not, Option, Option-cases, none, some, List, [], ◌∷◌, ◌++◌, map, append-nil,
  Bool-cases, inl, inr, All, if◌then◌else◌, ◌≡◌, ◌≢◌, refl, subst, ap,
}
use odp_platform_common.Common.Result.{ok, err, ok-injective}
use odp_platform_common.Common.Action.{Action, lift, Ends, failed, Ends-of, Ends-bind}
use odp_platform_common.Text.{Text, codes}
use odp_platform_common.Boot.Firmware.{
  security_violation, simple_file_system, by_protocol, locate_handles, History, Firmware,
}
use odp_platform_common.Boot.Paths.{Paths}
use odp_platform_common.Boot.Policy.{
  BootSourcePolicy, SecureBootState, has_sources, allows_security_state, allows_device,
}
use odp_platform_common.Boot.Expand.{path_of}
use odp_platform_common.Boot.Variables.{secure_boot_state}
use odp_platform_common.Boot.Fallback.{
  Arch, aarch64, x86_64, fallback_os_loader_paths, approved_volume, candidate, candidates,
  options_of, volumes_of, fallback_boot_options,
}

-- Behind a test that refuses.
Ends-unless :
    {S A E : Type 0} {Q : S → A → Type 0} (b : Bool) (e : E) (s : S) (m : Action S E A)
    → (b ≡ true → Ends Q (m s))
    → Ends Q ((if not b then lift (err e) else m) s)
Ends-unless true e s m h = h refl
Ends-unless false e s m h = failed

module _ {Node DevicePath : Type 0} (paths : Paths Node DevicePath) (fw : Firmware DevicePath)
    (policy : BootSourcePolicy DevicePath) where
  abbrev pub Allowed : DevicePath → Type 0
  Allowed volume = allows_device paths policy volume ≡ true

  approved_volume-Allowed :
      (path : Option DevicePath) {volume : DevicePath}
      → approved_volume paths policy path ≡ some volume
      → Allowed volume
  unfolding approved_volume
  approved_volume-Allowed none h = cc
  approved_volume-Allowed (some path) {volume} h =
      elim (Bool-cases (allows_device paths policy path)) [
        | inl yes_allowed ↦
            let same : ◌≡◌ {A = Option DevicePath} (some path) (some volume) =
              rw yes_allowed at h in
            let same' : path ≡ volume = cc in subst Allowed same' yes_allowed
        | inr refused ↦
            let impossible : ◌≡◌ {A = Option DevicePath} none (some volume) = rw refused at h in cc
      ]

  volumes_of-Allowed :
      (handles : List ℕ) (h : History DevicePath)
      → All Allowed (volumes_of paths fw policy handles h).1
  unfolding volumes_of
  volumes_of-Allowed [] h = tt
  volumes_of-Allowed (handle ∷ handles) h =
      let (h', path) = path_of fw handle h in
      let rest = volumes_of-Allowed handles h' in
      elim (Option-cases (approved_volume paths policy path)) [
        | inl e ↦ rw (volumes_of, e) rest
        | inr (volume, e) ↦ rw (volumes_of, e) (approved_volume-Allowed path e, rest)
      ]

  -- The options for these volumes: all of them for the first loader, then all for the second.
  abbrev pub LoaderMajor : Arch → List DevicePath → List DevicePath → Type 0
  LoaderMajor arch volumes options =
      (first : Text) × (second : Text) × (fallback_os_loader_paths arch ≡ first ∷ second ∷ [])
      × (options ≡ map (candidate paths first) volumes ++ map (candidate paths second) volumes)

  two_loaders :
      (first second : Text) (volumes : List DevicePath)
      → candidates paths (first ∷ second ∷ []) volumes
        ≡ map (candidate paths first) volumes ++ map (candidate paths second) volumes
  unfolding candidates
  two_loaders first second volumes =
      ap (λ t. map (candidate paths first) volumes ++ t)
        (append-nil (map (candidate paths second) volumes))

  candidates-LoaderMajor :
      (arch : Arch) (volumes : List DevicePath)
      → LoaderMajor arch volumes (candidates paths (fallback_os_loader_paths arch) volumes)
  candidates-LoaderMajor aarch64 volumes = (
    codes "\\EFI\\Microsoft\\Boot\\bootmgfw.efi",
    codes "\\EFI\\Boot\\bootaa64.efi",
    refl,
    two_loaders _ _ volumes,
  )
  candidates-LoaderMajor x86_64 volumes = (
    codes "\\EFI\\Microsoft\\Boot\\bootmgfw.efi",
    codes "\\EFI\\Boot\\bootx64.efi",
    refl,
    two_loaders _ _ volumes,
  )

  abbrev pub Approved : Arch → History DevicePath → List DevicePath → Type 0
  Approved arch h options =
      (state : SecureBootState) × (read : History DevicePath) × (secure_boot_state fw h
        ≡ (read, ok state))
      × (allows_security_state policy state ≡ true)
      × (volumes : List DevicePath) × (volumes ≢ [])
      × All Allowed volumes
      × LoaderMajor arch volumes options

  options_of-LoaderMajor :
      (arch : Arch) (volumes : List DevicePath) {options : List DevicePath}
      → options_of paths arch volumes ≡ ok options
      → (volumes ≢ []) × LoaderMajor arch volumes options
  unfolding options_of
  options_of-LoaderMajor arch [] h = cc
  options_of-LoaderMajor arch (volume ∷ volumes) h = (
    (λ e. cc),
    subst (LoaderMajor arch (volume ∷ volumes)) (ok-injective h)
        (candidates-LoaderMajor arch (volume ∷ volumes)),
  )

  -- Where boot options are made from file systems, the policy allows the Secure Boot state that was
  -- read, the options are those of at least one volume, each of them a volume that the policy
  -- allows, and all volumes come with the first loader before any comes with the second.
  pub fallback_boot_options-Approved :
      (arch : Arch) (h : History DevicePath)
      → Ends (λ _ options. Approved arch h options) (fallback_boot_options paths fw arch policy h)
  unfolding fallback_boot_options
  fallback_boot_options-Approved arch h = elim (Bool-cases (has_sources paths policy)) [
    | inr none_there ↦ rw (fallback_boot_options, none_there) failed
    | inl some_there ↦
        rw (fallback_boot_options, some_there)
          (Ends-bind (secure_boot_state fw h) _ λ h' state read.
            Ends-unless (allows_security_state policy state) security_violation h' _ λ permitted.
              let by_file_system = by_protocol simple_file_system in
              Ends-bind
                (locate_handles by_file_system ∷ h', fw.locate_handle_buffer h' by_file_system) _
                λ h'' handles _.
                  let (last, volumes) = volumes_of paths fw policy handles h'' in
                  Ends-of (last, options_of paths arch volumes)
                    λ _ options made.
                      let (there, order) =
                        options_of-LoaderMajor arch volumes (ap (λ r. r.1) made) in
                      let allowed = volumes_of-Allowed handles h'' in
                      (state, h', read, permitted, volumes, there, allowed, order))
  ]
