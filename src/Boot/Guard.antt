-- ===== src/Boot/Guard.antt =====
-- The order of the calls around an image: the security transition before any image is loaded, and
-- the load and the watchdog timer right before it is started.
use odp_platform_common.Common.{ℕ, inl, inr, [], ◌∷◌, ◌≡◌, refl, subst, ap}
use odp_platform_common.Common.Result.{Result-cases, ok, err}
use odp_platform_common.Common.Action.{Ends, failed, Ends-ok, Ends-of, Ends-bind}
use odp_platform_common.Boot.Firmware.{
  EventGroup, end_of_dxe, boot_mgr_proxy, ProxyEntry, Call, locate_protocol, create, signal, close,
  load, start, watchdog, proxy, History, Firmware,
}
use odp_platform_common.Boot.Firmware.Keeps.{Keeps, Stays, Keeps-bind}
use odp_platform_common.Boot.Paths.{Paths}
use odp_platform_common.Boot.Proxy as Proxy
use odp_platform_common.Boot.Events.{signal_group, signal_bds_phase_entry, enter_locked_boot}
use odp_platform_common.Boot.Attempt.{full_path, set_watchdog, start_image, boot_from_device_path}
use odp_platform_common.Boot.Quiet.Queries.{full_path-Keeps}

module _ {DevicePath : Type 0} (fw : Firmware DevicePath) where
  -- An event of the group was created and signalled.
  pub data Signalled (group : EventGroup) : History DevicePath → Type 0 where
    now :
        {h : History DevicePath} {event : ℕ}
        → fw.create_event_ex h group ≡ ok event
        → fw.signal_event (create group ∷ h) event ≡ ok tt
        → Signalled group (signal event ∷ create group ∷ h)
    before :
        {h : History DevicePath} (c : Call DevicePath) → Signalled group h → Signalled group (c ∷ h)

  -- EndOfDxe was signalled, and DxeSmmReadyToLock was installed after it.
  pub data Locked : History DevicePath → Type 0 where
    now :
        {h : History DevicePath}
        → Signalled end_of_dxe h
        → fw.call_proxy h ProxyEntry.install_dxe_smm_ready_to_lock ≡ ok tt
        → Locked (proxy ProxyEntry.install_dxe_smm_ready_to_lock ∷ h)
    before : {h : History DevicePath} (c : Call DevicePath) → Locked h → Locked (c ∷ h)

  -- The two calls before the start of an image: its load, and the timer set to 300 seconds.
  abbrev pub Armed : ℕ → History DevicePath → Type 0
  Armed image h =
      (parent : ℕ) × (path : DevicePath) × (older : History DevicePath) × (h
        ≡ watchdog 300 ∷ load parent path ∷ older)
      × (fw.load_image older parent path ≡ ok image)
      × (fw.set_watchdog_timer (load parent path ∷ older) 300 ≡ ok tt)

  -- Each load of an image comes after the security transition, and each start right after the load
  -- of that image and the timer.
  unfoldable pub Guarded : History DevicePath → Type 0
  Guarded [] = Unit {0}
  Guarded (load parent path ∷ h) = Locked h × Guarded h
  Guarded (start image ∷ h) = Armed image h × Guarded h
  Guarded (c ∷ h) = Guarded h

  pub Guarded-Stays : Stays Guarded
  unfolding Guarded
  Guarded-Stays (load parent path) h quiet g = cc
  Guarded-Stays (start image) h quiet g = cc
  Guarded-Stays _ h quiet g = g

  abbrev pub Secure : History DevicePath → Type 0
  Secure h = Locked h × Guarded h

  pub Secure-Stays : Stays Secure
  Secure-Stays c h quiet (l, g) = (Locked.before c l, Guarded-Stays c h quiet g)

  -- The seconds to which the timer was last set; 0 if it is off.
  unfoldable pub timer : History DevicePath → ℕ
  timer [] = 0
  timer (watchdog seconds ∷ h) = elim (fw.set_watchdog_timer h seconds) [
    | ok _ ↦ seconds
    | err e ↦ timer h
  ]
  timer (c ∷ h) = timer h

  abbrev pub IsOff : History DevicePath → Type 0
  IsOff h = timer h ≡ 0

  pub IsOff-Stays : Stays IsOff
  unfolding timer
  IsOff-Stays (watchdog seconds) h quiet g = cc
  IsOff-Stays _ h quiet g = g

  start_image-Secure :
      (image parent : ℕ) (path : DevicePath) (h : History DevicePath)
      → fw.load_image h parent path ≡ ok image
      → Secure h
      → Secure (start_image fw image (load parent path ∷ h)).0
  unfolding start_image set_watchdog Guarded
  start_image-Secure image parent path h loaded (l, g) =
      let loaded' = Locked.before (load parent path) l in
      let armed = Locked.before (watchdog 300) loaded' in
      elim (Result-cases (fw.set_watchdog_timer (load parent path ∷ h) 300)) [
        | inr (e, same) ↦ rw (start_image, same) (armed, (l, g))
        | inl (_, same) ↦
            rw (start_image, same)
              (
                Locked.before (watchdog 0) (Locked.before (start image) armed),
                ((parent, path, h, refl, loaded, same), (l, g)),
              )
      ]

  start_image-IsOff :
      (image : ℕ) (h : History DevicePath)
      → ((h' : History DevicePath) → fw.set_watchdog_timer h' 0 ≡ ok tt)
      → IsOff h
      → IsOff (start_image fw image h).0
  unfolding start_image set_watchdog timer
  start_image-IsOff image h disarms off = elim (Result-cases (fw.set_watchdog_timer h 300)) [
    | inr (e, same) ↦ rw (start_image, same, timer, same) off
    | inl (_, same) ↦
        let disarmed = disarms (start image ∷ watchdog 300 ∷ h) in
        rw (start_image, same, timer, disarmed) refl
  ]

  locate-Signalled : {group : EventGroup} → Keeps (Signalled group) (Proxy.locate fw)
  unfolding Proxy.locate
  locate-Signalled {group} h s =
      Keeps-bind (Signalled group)
        (locate_protocol boot_mgr_proxy ∷ h, fw.locate_protocol_unchecked h boot_mgr_proxy) _
        (Signalled.before _ s) λ interface h' s'. s'

  signal_group-Signalled :
      (group : EventGroup) (h : History DevicePath)
      → Ends (λ h' _. Signalled group h') (signal_group fw group h)
  unfolding signal_group
  signal_group-Signalled group h = elim (Result-cases (fw.create_event_ex h group)) [
    | inr (e, c) ↦ rw (signal_group, c) failed
    | inl (event, c) ↦ elim (Result-cases (fw.signal_event (create group ∷ h) event)) [
      | inr (e, s) ↦ rw (signal_group, c, s) failed
      | inl (_, s) ↦
          rw (signal_group, c, s)
            (Ends-of _ λ h' _ e.
              subst (Signalled group) (ap (λ r. r.0) e)
                (Signalled.before (close event) (Signalled.now c s)))
    ]
  ]

  -- The capability of the source: the transition succeeds only where EndOfDxe was signalled and
  -- then DxeSmmReadyToLock was installed.
  pub enter_locked_boot-Locked :
      (h : History DevicePath) → Ends (λ h' _. Locked h') (enter_locked_boot fw h)
  unfolding enter_locked_boot signal_bds_phase_entry Proxy.install_dxe_smm_ready_to_lock
      Proxy.call_entry Proxy.call
  enter_locked_boot-Locked h = Ends-bind (signal_group fw end_of_dxe h) _ λ h' _ signalled.
      let s = Ends-ok _ signalled (signal_group-Signalled end_of_dxe h) in
      Ends-bind (Proxy.locate fw h') _ λ h'' interface located.
        let s' = subst (Signalled end_of_dxe) (ap (λ r. r.0) located) (locate-Signalled h' s) in
        Ends-of _ λ last _ e. subst Locked (ap (λ r. r.0) e) (Locked.now s' (ap (λ r. r.1) e))

module _ {Node DevicePath : Type 0} (paths : Paths Node DevicePath) (fw : Firmware DevicePath) where
  pub boot_from_device_path-Secure :
      (parent : ℕ) (path : DevicePath)
      → Keeps (Secure fw) (boot_from_device_path paths fw parent path)
  unfolding boot_from_device_path Guarded
  boot_from_device_path-Secure parent path h s =
      Keeps-bind (Secure fw) (full_path paths fw path h) _
        (full_path-Keeps paths (Secure fw) (Secure-Stays fw) fw path h s)
        λ full h' s'. elim (Result-cases (fw.load_image h' parent full)) [
          | inr (e, same) ↦ rw same (Locked.before (load parent full) s'.0, s')
          | inl (image, same) ↦ rw same (start_image-Secure fw image parent full h' same s')
        ]

  pub boot_from_device_path-IsOff :
      (parent : ℕ) (path : DevicePath)
      → ((h : History DevicePath) → fw.set_watchdog_timer h 0 ≡ ok tt)
      → Keeps (IsOff fw) (boot_from_device_path paths fw parent path)
  unfolding boot_from_device_path timer
  boot_from_device_path-IsOff parent path disarms h off =
      Keeps-bind (IsOff fw) (full_path paths fw path h) _
        (full_path-Keeps paths (IsOff fw) (IsOff-Stays fw) fw path h off)
        λ full h' off'.
          Keeps-bind (IsOff fw) (load parent full ∷ h', fw.load_image h' parent full) _ off'
            λ image h'' off''. start_image-IsOff fw image h'' disarms off''
