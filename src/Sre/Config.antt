-- ===== src/Sre/Config.antt =====
-- The configuration of the SRE boot manager (uefi/crates/patina_sre/src/sre_boot_manager.rs).
use odp_platform_common.Common.{Bool, true, false, Option, none, some}
use odp_platform_common.Boot.Policy as Policy
use odp_platform_common.Boot.Policy.{BootSourcePolicy}

pub record SreBootManager (DevicePath : Type 0) : Type 0 where
  pub main_os_path : DevicePath
  pub sre_app_path : Option DevicePath
  pub frontpage_app_path : Option DevicePath
  pub bp_sre_fallback : Bool
  pub dfci_bds_signal : Bool
  pub capsule_processing : Bool
  pub boot_source_policy : BootSourcePolicy DevicePath

module _ {DevicePath : Type 0} where
  unfoldable pub new : DevicePath → SreBootManager DevicePath
  unfolding Policy.new
  new main_os_path = record {
    main_os_path = main_os_path;
    sre_app_path = none;
    frontpage_app_path = none;
    bp_sre_fallback = false;
    dfci_bds_signal = false;
    capsule_processing = false;
    boot_source_policy = Policy.new;
  }

  unfoldable pub with_sre_app_path :
      SreBootManager DevicePath → DevicePath → SreBootManager DevicePath
  with_sre_app_path m path = record m { sre_app_path = some path }

  unfoldable pub with_frontpage_app_path :
      SreBootManager DevicePath → DevicePath → SreBootManager DevicePath
  with_frontpage_app_path m path = record m { frontpage_app_path = some path }

  unfoldable pub with_bp_sre_fallback : SreBootManager DevicePath → SreBootManager DevicePath
  with_bp_sre_fallback m = record m { bp_sre_fallback = true }

  unfoldable pub with_dfci_bds_signal : SreBootManager DevicePath → SreBootManager DevicePath
  with_dfci_bds_signal m = record m { dfci_bds_signal = true }

  unfoldable pub with_capsule_processing : SreBootManager DevicePath → SreBootManager DevicePath
  with_capsule_processing m = record m { capsule_processing = true }

  unfoldable pub with_boot_source_policy :
      SreBootManager DevicePath → BootSourcePolicy DevicePath → SreBootManager DevicePath
  with_boot_source_policy m policy = record m { boot_source_policy = policy }
