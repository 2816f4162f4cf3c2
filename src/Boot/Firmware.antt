-- ===== src/Boot/Firmware.antt =====
-- What the boot code asks of the firmware: the traits `BootServices`, `RuntimeServices` and
-- `DxeDispatch`, and the protocols that it calls. None of them is of this repository, so they are
-- a parameter. The state of the firmware is the list of the calls made so far, the last one first:
-- what it answers to a call may depend on all of them.
pub mod Keeps
use odp_platform_common.Common.{ℕ, Bool, Option, List, [], ◌∷◌}
use odp_platform_common.Common.Result.{Result}
use odp_platform_common.Common.Action.{Action}
use odp_platform_common.Recovery.Nvme.{Command}

-- The errors that the boot code names; any other one by a number.
pub data EfiError : Type 0 where
  invalid_parameter : EfiError
  not_found : EfiError
  security_violation : EfiError
  unsupported : EfiError
  out_of_resources : EfiError
  other : ℕ → EfiError

-- The protocols by which handles are located, or whose interface is asked of a handle.
pub data Protocol : Type 0 where
  simple_text_input : Protocol
  simple_text_output : Protocol
  graphics_output : Protocol
  simple_file_system : Protocol
  device_path : Protocol
  pci_io : Protocol
  boot_mgr_proxy : Protocol
  ms_button_services : Protocol
  nvm_express_pass_thru : Protocol
  block_io : Protocol

pub data HandleSearchType : Type 0 where
  all_handles : HandleSearchType
  by_protocol : Protocol → HandleSearchType

pub data EventGroup : Type 0 where
  end_of_dxe : EventGroup
  ready_to_boot : EventGroup
  ms_start_of_bds : EventGroup
  dfci_start_of_bds : EventGroup
  mu_ready_to_process_capsules : EventGroup

pub data VolumeButton : Type 0 where
  volume_up : VolumeButton
  volume_down : VolumeButton

pub data ConsoleType : Type 0 where
  con_in : ConsoleType
  con_out : ConsoleType
  err_out : ConsoleType

-- The entries of the proxy driver's table.
pub data ProxyEntry : Type 0 where
  process_capsules : ProxyEntry
  connect_all_default_consoles : ProxyEntry
  connect_console_variable : ConsoleType → ProxyEntry
  update_console_variable : ConsoleType → ℕ → ℕ → ProxyEntry
  start_hotkey_service : ProxyEntry
  dispatch_deferred_images : ProxyEntry
  process_load_option : ℕ → ProxyEntry
  install_dxe_smm_ready_to_lock : ProxyEntry
  perform_memory_test : ProxyEntry
  display_boot_logo : ProxyEntry

-- A call, with its arguments. Handles, events and interfaces are numbers.
pub data Call (DevicePath : Type 0) : Type 0 where
  locate_handles : HandleSearchType → Call DevicePath
  interface_of : Protocol → ℕ → Call DevicePath
  locate_protocol : Protocol → Call DevicePath
  read_key : ℕ → Call DevicePath
  read_pci : ℕ → Call DevicePath
  connect : ℕ → Bool → Call DevicePath
  create : EventGroup → Call DevicePath
  signal : ℕ → Call DevicePath
  close : ℕ → Call DevicePath
  load : ℕ → DevicePath → Call DevicePath
  watchdog : ℕ → Call DevicePath
  start : ℕ → Call DevicePath
  proxy : ProxyEntry → Call DevicePath
  get_variable : List ℕ → Call DevicePath
  set_variable : List ℕ → List ℕ → Call DevicePath
  dispatch : Call DevicePath
  check_volume : VolumeButton → ℕ → Call DevicePath
  clear_volume : ℕ → Call DevicePath
  locate_path : ℕ → Call DevicePath
  install : Option ℕ → Protocol → ℕ → Call DevicePath
  uninstall : ℕ → Protocol → ℕ → Call DevicePath
  disconnect : ℕ → Call DevicePath
  failure_handler : Call DevicePath
  nvme : ℕ → Command → Call DevicePath

abbrev pub History : Type 0 → Type 0
History DevicePath = List (Call DevicePath)

-- What is answered after a history of calls. A status other than success is the `EfiError` to which
-- the code converts it.
pub record Firmware (DevicePath : Type 0) : Type 0 where
  pub locate_handle_buffer : History DevicePath → HandleSearchType → Result (List ℕ) EfiError
  pub handle_protocol : History DevicePath → Protocol → ℕ → Result ℕ EfiError
  pub locate_protocol_unchecked : History DevicePath → Protocol → Result ℕ EfiError
  -- `DevicePath::try_from_ptr` at an interface.
  pub path_at : History DevicePath → ℕ → Option DevicePath
  -- The bytes from an interface on.
  pub bytes_at : History DevicePath → ℕ → List ℕ
  -- The byte that a check of a button leaves in its argument, which is 0 before.
  pub volume_check : History DevicePath → VolumeButton → ℕ → ℕ
  -- The scan code of the next key stroke at an interface.
  pub read_key_stroke : History DevicePath → ℕ → Result ℕ EfiError
  -- The four bytes at offset 8 of the configuration space, as a number.
  pub pci_read : History DevicePath → ℕ → Result ℕ EfiError
  pub connect_controller : History DevicePath → ℕ → Bool → Result (Unit {0}) EfiError
  -- The handle whose device path is the longest prefix of that at a pointer.
  pub locate_device_path : History DevicePath → ℕ → Result ℕ EfiError
  -- An interface installed on a handle, or on a new one, which is returned.
  pub install_protocol : History DevicePath → Option ℕ → Protocol → ℕ → Result ℕ EfiError
  pub uninstall_protocol : History DevicePath → ℕ → Protocol → ℕ → Result (Unit {0}) EfiError
  pub disconnect_controller : History DevicePath → ℕ → Result (Unit {0}) EfiError
  pub create_event_ex : History DevicePath → EventGroup → Result ℕ EfiError
  pub signal_event : History DevicePath → ℕ → Result (Unit {0}) EfiError
  pub close_event : History DevicePath → ℕ → Result (Unit {0}) EfiError
  pub load_image : History DevicePath → ℕ → DevicePath → Result ℕ EfiError
  pub set_watchdog_timer : History DevicePath → ℕ → Result (Unit {0}) EfiError
  pub start_image : History DevicePath → ℕ → Result (Unit {0}) EfiError
  pub proxy_revision : History DevicePath → ℕ → ℕ
  pub call_proxy : History DevicePath → ProxyEntry → Result (Unit {0}) EfiError
  pub hotkey_event : History DevicePath → ℕ
  -- Variables of the global namespace; those written all have the same attributes.
  pub variable : History DevicePath → List ℕ → Result (List ℕ) EfiError
  pub write_variable : History DevicePath → List ℕ → List ℕ → Result (Unit {0}) EfiError
  pub dispatch_drivers : History DevicePath → Result Bool EfiError
  -- A command to the NVMe controller at an interface: the bytes it transfers, or its status.
  pub pass_thru : History DevicePath → ℕ → Command → Result (List ℕ) ℕ
  -- `EfiError::from` of a status.
  pub from_status : ℕ → EfiError

-- Code that calls the firmware.
abbrev pub Boot : Type 0 → Type 0 → Type 0
Boot DevicePath A = Action (History DevicePath) EfiError A

module _ {DevicePath A : Type 0} where
  -- A call: it is recorded, and answered from the history before it.
  abbrev pub ask : Call DevicePath → (History DevicePath → Result A EfiError) → Boot DevicePath A
  ask c answer h = (c ∷ h, answer h)

-- `if let Err(e) = … { log }` and `let _ = …`: whatever the outcome, the code goes on.
abbrev pub attempt :
    {DevicePath A : Type 0} → Boot DevicePath A → Boot DevicePath (Result A EfiError)
attempt m h = let (h', r) = m h in (h', Result.ok r)
