-- ===== src/Boot/Paths.antt =====
-- What the boot code uses of device paths, a type of another library: a parameter. A path is read
-- node by node, a node by its header and, if it is a hard drive node, by the partition's identity.
use odp_platform_common.Common.{ℕ, Option, List}

pub record HardDrive : Type 0 where
  pub partition_number : ℕ
  pub partition_format : ℕ
  pub signature_type : ℕ
  pub partition_signature : List ℕ

pub record Paths (Node DevicePath : Type 0) : Type 0 where
  -- The fields of a node's header.
  pub kind : Node → ℕ
  pub sub_type : Node → ℕ
  -- `HardDrive::try_from_node`.
  pub try_from_node : Node → Option HardDrive
  -- `DevicePath::iter`, `DevicePathBuf::from_device_path_node_iter` and `append_device_path`.
  pub iter : DevicePath → List Node
  pub from_nodes : List Node → DevicePath
  pub append_device_path : DevicePath → DevicePath → DevicePath
  pub append_device_path_instances : DevicePath → DevicePath → DevicePath
  -- `FilePath::new`.
  pub file_path : List ℕ → Node
  -- `DevicePath::as_bytes`, and `DevicePath::try_from_ptr` of a buffer.
  pub as_bytes : DevicePath → List ℕ
  pub of_bytes : List ℕ → Option DevicePath

-- The numbers of `DevicePathType`, `MediaSubType` and `MessagingSubType`.
abbrev pub hardware : ℕ
hardware = 1

abbrev pub acpi : ℕ
acpi = 2

abbrev pub messaging : ℕ
messaging = 3

abbrev pub media : ℕ
media = 4

abbrev pub end_node : ℕ
end_node = 0x7f

abbrev pub piwg_firmware_file : ℕ
piwg_firmware_file = 6

abbrev pub piwg_firmware_volume : ℕ
piwg_firmware_volume = 7

abbrev pub usb : ℕ
usb = 5

abbrev pub usb_class : ℕ
usb_class = 15

abbrev pub usb_wwid : ℕ
usb_wwid = 16
