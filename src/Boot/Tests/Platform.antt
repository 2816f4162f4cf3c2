-- ===== src/Boot/Tests/Platform.antt =====
-- A platform with an NVMe partition and a USB volume.
use odp_platform_common.Common.{
  ℕ, true, false, Option, none, some, List, [], ◌∷◌, ◌++◌, get_or, ◌==◌, if◌then◌else◌,
}
use odp_platform_common.Common.Result.{Result, ok, err}
use odp_platform_common.Text.{Text, codes, text_eq}
use odp_platform_common.Boot.Firmware.{EfiError, not_found, Firmware}
use odp_platform_common.Boot.Paths.{HardDrive, Paths}
use odp_platform_common.Boot.Policy.{BootSourcePolicy}
use odp_platform_common.Boot.Connect.{connect_all}
use odp_platform_common.Boot.Simple.{SimpleBootManager}

pub record Node : Type 0 where
  pub kind : ℕ
  pub sub_type : ℕ
  pub drive : Option HardDrive

abbrev pub Demo : Type 0
Demo = List Node

abbrev pub partition : HardDrive
partition = record {
  partition_number = 1;
  partition_format = 2;
  signature_type = 2;
  partition_signature = 0xaa ∷ 0xbb ∷ [];
}

abbrev pub plain : ℕ → ℕ → Node
plain kind sub_type = record { kind = kind; sub_type = sub_type; drive = none }

abbrev pub drive_node : Node
drive_node = record { kind = 4; sub_type = 1; drive = some partition }

abbrev pub demo_paths : Paths Node Demo
demo_paths = record {
  kind = λ node. node.kind;
  sub_type = λ node. node.sub_type;
  try_from_node = λ node. node.drive;
  iter = λ path. path;
  from_nodes = λ nodes. nodes;
  append_device_path = λ path rest. path ++ rest;
  append_device_path_instances = λ path rest. path ++ plain 0x7f 1 ∷ rest;
  file_path = λ name. plain 4 4;
  as_bytes = λ path. [];
  of_bytes = λ bytes. some (plain (get_or bytes 0 0) (get_or bytes 1 0) ∷ []);
}

abbrev pub internal : Demo
internal = plain 2 1 ∷ plain 3 23 ∷ drive_node ∷ []

abbrev pub usb_stick : Demo
usb_stick = plain 2 1 ∷ plain 3 5 ∷ []

abbrev pub short_form : Demo
short_form = drive_node ∷ plain 4 4 ∷ []

-- An active option, with the description "A" and a hardware node before the end.
abbrev pub option_bytes : List ℕ
option_bytes =
    1 ∷ 0 ∷ 0 ∷ 0 ∷ 8 ∷ 0 ∷ (65 ∷ 0 ∷ []) ++ 0 ∷ 0 ∷ (1 ∷ 1 ∷ 4 ∷ 0 ∷ 0x7f ∷ 0xff ∷ 4 ∷ 0 ∷ [])

abbrev pub store : Text → Result (List ℕ) EfiError
store name =
    if text_eq name (codes "SecureBoot")
    then ok (1 ∷ [])
    else if text_eq name (codes "SetupMode")
    then ok (0 ∷ [])
    else if text_eq name (codes "BootOrder")
    then ok (1 ∷ 0 ∷ 2 ∷ 0 ∷ [])
    else if text_eq name (codes "Boot0002")
    then ok option_bytes
    else err not_found

abbrev pub demo_fw : Firmware Demo
demo_fw = record {
  locate_handle_buffer = λ h search. ok (7 ∷ 8 ∷ []);
  handle_protocol = λ h protocol handle. ok handle;
  locate_protocol_unchecked = λ h protocol. ok 1;
  path_at = λ h interface. some (if interface == 7 then internal else usb_stick);
  read_key_stroke = λ h interface. err not_found;
  pci_read = λ h pci. ok (if pci == 8 then 0x0c033000 else 0x01080200);
  connect_controller = λ h handle recursive. ok tt;
  locate_device_path = λ h pointer. ok 9;
  install_protocol = λ h handle protocol interface. ok 9;
  uninstall_protocol = λ h handle protocol interface. ok tt;
  disconnect_controller = λ h handle. ok tt;
  create_event_ex = λ h group. ok 20;
  signal_event = λ h event. ok tt;
  bytes_at = λ h interface. 3 ∷ 5 ∷ 4 ∷ 0 ∷ 0x7f ∷ 0xff ∷ 4 ∷ 0 ∷ [];
  volume_check = λ h button protocol. 0;
  close_event = λ h event. ok tt;
  load_image = λ h parent path. ok 5;
  set_watchdog_timer = λ h seconds. ok tt;
  start_image = λ h image. err not_found;
  proxy_revision = λ h interface. 0x00010002;
  call_proxy = λ h entry. ok tt;
  hotkey_event = λ h. 30;
  variable = λ h name. store name;
  write_variable = λ h name bytes. ok tt;
  dispatch_drivers = λ h. ok false;
  pass_thru = λ h interface command. err 2;
  from_status = EfiError.other;
}

abbrev pub policy : BootSourcePolicy Demo
policy = record {
  approved_internal_devices = (drive_node ∷ []) ∷ [];
  removable_media = false;
  secure_boot_disabled = false;
  in_setup_mode = false;
}

abbrev pub manager : SimpleBootManager Demo
manager = record {
  config = record {
    devices = short_form ∷ usb_stick ∷ [];
    hotkey = some 22;
    hotkey_devices = usb_stick ∷ [];
    has_failure_handler = true;
  };
  connect_strategy = connect_all demo_fw;
}
