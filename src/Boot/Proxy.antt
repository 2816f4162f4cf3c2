-- ===== src/Boot/Proxy.antt =====
-- The calls of the proxy driver (uefi/crates/patina_boot/src/proxy.rs).
use odp_platform_common.Common.{ℕ, ◌/◌, ◌^◌, not, ltb, ◌==◌, if◌then◌else◌}
use odp_platform_common.Common.Result.{ok, err}
use odp_platform_common.Common.Action.{◌>>=◌, ◌>>◌}
use odp_platform_common.Boot.Firmware.{
  not_found, unsupported, boot_mgr_proxy, ConsoleType, ProxyEntry, Firmware, Boot, ask,
  locate_protocol, proxy,
}

abbrev pub revision : ℕ
revision = 0x00010002

module _ {DevicePath : Type 0} (fw : Firmware DevicePath) where
  -- The interface of a driver with the same major revision.
  unfoldable pub locate : Boot DevicePath ℕ
  locate = do
    interface ←
        ask (locate_protocol boot_mgr_proxy) λ h. fw.locate_protocol_unchecked h boot_mgr_proxy
    λ h. (
      h,
      if interface == 0
          then err not_found
          else if not (fw.proxy_revision h interface / 2 ^ 16 == revision / 2 ^ 16)
          then err unsupported
          else ok interface,
    )

  unfoldable pub call : ProxyEntry → Boot DevicePath (Unit {0})
  call entry = ask (proxy entry) λ h. fw.call_proxy h entry

  -- An entry that every table has.
  unfoldable pub call_entry : ProxyEntry → Boot DevicePath (Unit {0})
  unfolding locate call
  call_entry entry = do interface ← locate; call entry

  -- An entry that tables have from this revision on.
  unfoldable pub call_since : ℕ → ProxyEntry → Boot DevicePath (Unit {0})
  unfolding locate call
  call_since least entry = do
    interface ← locate
    λ h. if ltb (fw.proxy_revision h interface) least then (h, err unsupported) else call entry h

  unfoldable pub process_capsules : Boot DevicePath (Unit {0})
  unfolding call_entry
  process_capsules = call_entry ProxyEntry.process_capsules

  unfoldable pub connect_all_default_consoles : Boot DevicePath (Unit {0})
  unfolding call_entry
  connect_all_default_consoles = call_entry ProxyEntry.connect_all_default_consoles

  unfoldable pub perform_memory_test : Boot DevicePath (Unit {0})
  unfolding call_since
  perform_memory_test = call_since 0x00010001 ProxyEntry.perform_memory_test

  unfoldable pub display_boot_logo : Boot DevicePath (Unit {0})
  unfolding call_since
  display_boot_logo = call_since 0x00010002 ProxyEntry.display_boot_logo

  unfoldable pub connect_console_variable : ConsoleType → Boot DevicePath (Unit {0})
  unfolding call_entry
  connect_console_variable console = call_entry (ProxyEntry.connect_console_variable console)

  unfoldable pub update_console_variable : ConsoleType → ℕ → ℕ → Boot DevicePath (Unit {0})
  unfolding call_entry
  update_console_variable console customized exclusive =
      call_entry (ProxyEntry.update_console_variable console customized exclusive)

  -- The event is what the driver has written when it returns.
  unfoldable pub start_hotkey_service : Boot DevicePath ℕ
  unfolding call_entry
  start_hotkey_service = do
    call_entry ProxyEntry.start_hotkey_service
    λ h. (h, ok (fw.hotkey_event h))

  unfoldable pub dispatch_deferred_images : Boot DevicePath (Unit {0})
  unfolding call_entry
  dispatch_deferred_images = call_entry ProxyEntry.dispatch_deferred_images

  unfoldable pub process_load_option : ℕ → Boot DevicePath (Unit {0})
  unfolding call_entry
  process_load_option load_option = call_entry (ProxyEntry.process_load_option load_option)

  unfoldable pub install_dxe_smm_ready_to_lock : Boot DevicePath (Unit {0})
  unfolding call_entry
  install_dxe_smm_ready_to_lock = call_entry ProxyEntry.install_dxe_smm_ready_to_lock
