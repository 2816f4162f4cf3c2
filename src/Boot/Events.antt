-- ===== src/Boot/Events.antt =====
-- Event groups and the security transition (uefi/crates/patina_boot/src/helpers.rs).
use odp_platform_common.Common.Action.{◌>>=◌, ◌>>◌, lift}
use odp_platform_common.Boot.Firmware.{
  EventGroup, end_of_dxe, ready_to_boot, Firmware, Boot, ask, attempt, create, signal, close,
}
use odp_platform_common.Boot.Proxy.{install_dxe_smm_ready_to_lock}

module _ {DevicePath : Type 0} (fw : Firmware DevicePath) where
  -- The event is closed whether it could be signalled or not; a failure to signal it comes first.
  unfoldable pub signal_group : EventGroup → Boot DevicePath (Unit {0})
  signal_group group = do
    event ← ask (create group) λ h. fw.create_event_ex h group
    signal_result ← attempt (ask (signal event) λ h. fw.signal_event h event)
    close_result ← attempt (ask (close event) λ h. fw.close_event h event)
    lift signal_result
    lift close_result

  unfoldable pub signal_bds_phase_entry : Boot DevicePath (Unit {0})
  unfolding signal_group
  signal_bds_phase_entry = signal_group end_of_dxe

  unfoldable pub signal_ready_to_boot : Boot DevicePath (Unit {0})
  unfolding signal_group
  signal_ready_to_boot = signal_group ready_to_boot

  -- The capability that the source returns is the success of this.
  unfoldable pub enter_locked_boot : Boot DevicePath (Unit {0})
  unfolding signal_bds_phase_entry install_dxe_smm_ready_to_lock
  enter_locked_boot = do signal_bds_phase_entry; install_dxe_smm_ready_to_lock fw
