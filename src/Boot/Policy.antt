-- ===== src/Boot/Policy.antt =====
-- The policy for boot sources that are not provisioned (uefi/crates/patina_boot/src/
-- boot_source_policy.rs).
pub mod Allows
use odp_platform_common.Common.{
  ℕ, Bool, true, false, ◌&&◌, ◌||◌, Option, none, some, List, [], ◌∷◌, ◌++◌, ◌==◌, if◌then◌else◌,
  any,
}
use mathlib.Core.List.{filter_map}
use odp_platform_common.Text.{text_eq}
use odp_platform_common.Boot.Paths.{HardDrive, Paths, messaging, usb, usb_class, usb_wwid}

pub data SecureBootState : Type 0 where
  enabled : SecureBootState
  disabled : SecureBootState
  setup_mode : SecureBootState

pub record BootSourcePolicy (DevicePath : Type 0) : Type 0 where
  pub approved_internal_devices : List DevicePath
  pub removable_media : Bool
  pub secure_boot_disabled : Bool
  pub in_setup_mode : Bool

module _ {DevicePath : Type 0} where
  unfoldable pub new : BootSourcePolicy DevicePath
  new = record {
    approved_internal_devices = [];
    removable_media = false;
    secure_boot_disabled = false;
    in_setup_mode = false;
  }

  unfoldable pub with_approved_internal_device :
      BootSourcePolicy DevicePath → DevicePath → BootSourcePolicy DevicePath
  with_approved_internal_device p device_path = record p {
    approved_internal_devices = p.approved_internal_devices ++ device_path ∷ [];
  }

  unfoldable pub allow_removable_media : BootSourcePolicy DevicePath → BootSourcePolicy DevicePath
  allow_removable_media p = record p { removable_media = true }

  unfoldable pub allow_when_secure_boot_disabled :
      BootSourcePolicy DevicePath → BootSourcePolicy DevicePath
  allow_when_secure_boot_disabled p = record p { secure_boot_disabled = true }

  unfoldable pub allow_in_setup_mode : BootSourcePolicy DevicePath → BootSourcePolicy DevicePath
  allow_in_setup_mode p = record p { in_setup_mode = true }

  unfoldable pub allows_security_state : BootSourcePolicy DevicePath → SecureBootState → Bool
  allows_security_state p enabled = true
  allows_security_state p disabled = p.secure_boot_disabled
  allows_security_state p setup_mode = p.in_setup_mode

unfoldable pub hard_drive_identity_matches : HardDrive → HardDrive → Bool
unfolding text_eq
hard_drive_identity_matches left right =
    left.partition_number == right.partition_number
    && (left.partition_format == right.partition_format
        && (left.signature_type == right.signature_type
            && text_eq left.partition_signature right.partition_signature))

module _ {Node DevicePath : Type 0} (paths : Paths Node DevicePath) where
  unfoldable pub hard_drive_nodes : DevicePath → List HardDrive
  hard_drive_nodes device_path = filter_map paths.try_from_node (paths.iter device_path)

  unfoldable pub is_usb_node : Node → Bool
  is_usb_node node =
      paths.kind node == messaging
      && (paths.sub_type node == usb
          || (paths.sub_type node == usb_class || paths.sub_type node == usb_wwid))

  unfoldable pub is_usb_device_path : DevicePath → Bool
  unfolding is_usb_node
  is_usb_device_path device_path = any (paths.iter device_path) is_usb_node

  unfoldable pub has_sources : BootSourcePolicy DevicePath → Bool
  unfolding hard_drive_nodes
  has_sources p =
      p.removable_media
      || any p.approved_internal_devices (λ approved. any (hard_drive_nodes approved) (λ _. true))

  -- Some hard drive node of the approved device has the identity of one of the candidate.
  unfoldable pub approves : DevicePath → DevicePath → Bool
  unfolding hard_drive_nodes hard_drive_identity_matches
  approves candidate approved =
      any (hard_drive_nodes approved)
        (λ approved_hd. any (hard_drive_nodes candidate) (hard_drive_identity_matches approved_hd))

  unfoldable pub allows_device : BootSourcePolicy DevicePath → DevicePath → Bool
  unfolding is_usb_device_path approves
  allows_device p candidate =
      if is_usb_device_path candidate
      then p.removable_media
      else any p.approved_internal_devices (approves candidate)
