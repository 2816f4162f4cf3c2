-- ===== src/Sre/Hotkey/Keeps.antt =====
-- The hotkey and the hooks before the security transition only make silent calls.
use odp_platform_common.Common.{Bool, Bool-cases, inl, inr, true, false, ltb, ◌∷◌, ◌==◌, refl}
use odp_platform_common.Common.Result.{Result-cases}
use odp_platform_common.Boot.Firmware.{
  EventGroup, mu_ready_to_process_capsules, boot_mgr_proxy, ms_button_services, locate_protocol,
  create, signal, close, proxy, check_volume, clear_volume, VolumeButton, ProxyEntry, History,
  Firmware, Boot,
}
use odp_platform_common.Boot.Firmware.Keeps.{Keeps, Stays, Keeps-bind}
use odp_platform_common.Boot.Proxy as Proxy
use odp_platform_common.Sre.Hotkey.{
  when, check_button, read_buttons, buttons_at, probe_sre_hotkey, signal_event_group, process,
}

module _ {DevicePath : Type 0} (P : History DevicePath → Type 0) (stays : Stays P)
    (fw : Firmware DevicePath) where
  pub when-Keeps : (b : Bool) (m : Boot DevicePath (Unit {0})) → Keeps P m → Keeps P (when b m)
  when-Keeps true m k h p = k h p
  when-Keeps false m k h p = p

  pub signal_event_group-Keeps : (group : EventGroup) → Keeps P (signal_event_group fw group)
  unfolding signal_event_group
  signal_event_group-Keeps group h p =
      Keeps-bind P (create group ∷ h, fw.create_event_ex h group) _ (stays (create group) h refl p)
        λ event h' p'.
          let signalled = stays (signal event) h' refl p' in
          let closed = stays (close event) (signal event ∷ h') refl signalled in
          Keeps-bind P (close event ∷ signal event ∷ h', fw.signal_event h' event) _ closed
            λ _ h'' p''. p''

  display_boot_logo-Keeps : Keeps P (Proxy.display_boot_logo fw)
  unfolding Proxy.display_boot_logo Proxy.call_since Proxy.locate Proxy.call
  display_boot_logo-Keeps h p =
      Keeps-bind P (Proxy.locate fw h) _
        (Keeps-bind P
          (locate_protocol boot_mgr_proxy ∷ h, fw.locate_protocol_unchecked h boot_mgr_proxy) _
          (stays (locate_protocol boot_mgr_proxy) h refl p) λ interface h' p'. p')
        λ interface h' p'. elim (Bool-cases (ltb (fw.proxy_revision h' interface) 0x00010002)) [
          | inl old ↦ rw old p'
          | inr new ↦ rw new (stays (proxy ProxyEntry.display_boot_logo) h' refl p')
        ]

  pub process-Keeps : (is_flash_update_boot : Bool) → Keeps P (process fw is_flash_update_boot)
  unfolding process
  process-Keeps true h p =
      signal_event_group-Keeps mu_ready_to_process_capsules _ (display_boot_logo-Keeps h p)
  process-Keeps false h p = signal_event_group-Keeps mu_ready_to_process_capsules h p

  pub probe_sre_hotkey-Keeps : Keeps P (probe_sre_hotkey fw)
  unfolding probe_sre_hotkey buttons_at read_buttons check_button
  probe_sre_hotkey-Keeps h p =
      let asked = stays (locate_protocol ms_button_services) h refl p in
      let h' = locate_protocol ms_button_services ∷ h in
      elim (Result-cases (fw.locate_protocol_unchecked h ms_button_services)) [
        | inr (e, absent) ↦ rw absent asked
        | inl (protocol, located) ↦ elim (Bool-cases (protocol == 0)) [
          | inl null ↦ rw (located, null) asked
          | inr there ↦
              let up = stays (check_volume VolumeButton.volume_up protocol) h' refl asked in
              let down = stays (check_volume VolumeButton.volume_down protocol) _ refl up in
              rw (located, there) (stays (clear_volume protocol) _ refl down)
        ]
      ]
