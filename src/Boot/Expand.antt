-- ===== src/Boot/Expand.antt =====
-- Short-form device paths (uefi/crates/patina_boot/src/helpers.rs).
pub mod Unique
use mathlib.Core.Option
use odp_platform_common.Common.{
  ℕ, Bool, true, false, not, ◌&&◌, ◌||◌, Option, none, some, List, [], ◌∷◌, ◌++◌, ◌==◌,
  if◌then◌else◌,
}
use odp_platform_common.Common.Result.{Result, ok, err, ok_or}
use odp_platform_common.Common.Action.{Action, ◌>>=◌, lift}
use odp_platform_common.Boot.Firmware.{
  EfiError, invalid_parameter, not_found, security_violation, device_path, HandleSearchType,
  by_protocol, locate_handles, interface_of, History, Firmware, Boot, ask,
}
use odp_platform_common.Boot.Paths.{
  HardDrive, Paths, hardware, acpi, media, end_node, piwg_firmware_file, piwg_firmware_volume,
}
use odp_platform_common.Boot.Policy.{hard_drive_identity_matches}

module _ {Node DevicePath : Type 0} (paths : Paths Node DevicePath) where
  unfoldable pub is_end : Node → Bool
  is_end node = paths.kind node == end_node

  unfoldable pub is_partial_node : Node → Bool
  is_partial_node node =
      if paths.kind node == media
        && (paths.sub_type node == piwg_firmware_file
            || paths.sub_type node == piwg_firmware_volume)
      then false
      else not (paths.kind node == hardware)
        && (not (paths.kind node == acpi) && not (paths.kind node == end_node))

  unfoldable pub starts : (Node → Bool) → List Node → Bool
  starts test [] = false
  starts test (node ∷ nodes) = test node

  unfoldable pub is_partial_device_path : DevicePath → Bool
  unfolding is_partial_node starts
  is_partial_device_path path = starts is_partial_node (paths.iter path)

  unfoldable pub has_real_node : DevicePath → Bool
  unfolding is_end starts
  has_real_node path = starts (λ node. not (is_end node)) (paths.iter path)

  -- `find_map(HardDrive::try_from_node)`.
  unfoldable pub find_drive : List Node → Option HardDrive
  find_drive [] = none
  find_drive (node ∷ nodes) = elim (paths.try_from_node node) [
    | some hd ↦ some hd
    | none ↦ find_drive nodes
  ]

  -- The filter over the nodes, which keeps what follows the first hard drive node.
  unfoldable pub after_drive : Bool → List Node → List Node
  unfolding is_end
  after_drive past_hd [] = []
  after_drive past_hd (node ∷ nodes) = elim (past_hd && not (is_end node)) [
    | true ↦ node ∷ after_drive past_hd nodes
    | false ↦ elim (paths.try_from_node node) [
      | some hd ↦ after_drive true nodes
      | none ↦ after_drive past_hd nodes
    ]
  ]

  unfoldable pub is_match : HardDrive → Node → Bool
  unfolding hard_drive_identity_matches
  is_match target node = elim (paths.try_from_node node) [
    | some hd ↦ hard_drive_identity_matches hd target
    | none ↦ false
  ]

  -- The nodes up to the first that matches, if one does before the end.
  unfoldable pub prefix_nodes : HardDrive → List Node → Option (List Node)
  unfolding is_end is_match
  prefix_nodes target [] = none
  prefix_nodes target (node ∷ nodes) = elim (is_end node) [
    | true ↦ none
    | false ↦ elim (is_match target node) [
      | true ↦ some (node ∷ [])
      | false ↦ Option.map (λ found. node ∷ found) (prefix_nodes target nodes)
    ]
  ]

  -- The path that a handle's own path gives: its nodes up to the match, and the rest behind them.
  unfoldable pub expansion : HardDrive → DevicePath → Option DevicePath → Option DevicePath
  unfolding prefix_nodes
  expansion target remaining none = none
  expansion target remaining (some path) =
      Option.map (λ prefix. paths.append_device_path (paths.from_nodes prefix) remaining)
        (prefix_nodes target (paths.iter path))

module _ {DevicePath : Type 0} (fw : Firmware DevicePath) where
  -- The device path of a handle: the interface, and the path that stands there.
  unfoldable pub path_of : ℕ → History DevicePath → History DevicePath × Option DevicePath
  path_of handle h = elim (fw.handle_protocol h device_path handle) [
    | ok interface ↦ (
      interface_of device_path handle ∷ h,
      fw.path_at (interface_of device_path handle ∷ h) interface,
    )
    | err e ↦ (interface_of device_path handle ∷ h, none)
  ]

  unfoldable pub locate_paths : Boot DevicePath (List ℕ)
  locate_paths =
      ask (locate_handles (by_protocol device_path))
        λ h. fw.locate_handle_buffer h (by_protocol device_path)

module _ {Node DevicePath : Type 0} (paths : Paths Node DevicePath) (fw : Firmware DevicePath) where
  -- The loop over the handles, with the match found so far.
  unfoldable pub match_handles :
      HardDrive → DevicePath → Option DevicePath → List ℕ → Boot DevicePath (Option DevicePath)
  unfolding path_of expansion
  match_handles target remaining matched [] h = (h, ok matched)
  match_handles target remaining matched (handle ∷ handles) h =
      let (h', path) = path_of fw handle h in
      elim (expansion paths target remaining path) [
        | none ↦ match_handles target remaining matched handles h'
        | some full ↦ elim matched [
          | none ↦ match_handles target remaining (some full) handles h'
          | some other ↦ (h', err security_violation)
        ]
      ]

  unfoldable pub expand_device_path : DevicePath → Boot DevicePath DevicePath
  unfolding is_partial_device_path has_real_node find_drive after_drive match_handles locate_paths
  expand_device_path partial_path =
      if not (has_real_node paths partial_path)
      then lift (err invalid_parameter)
      else if not (is_partial_device_path paths partial_path)
      then lift (ok partial_path)
      else do
        target ← lift (ok_or (find_drive paths (paths.iter partial_path)) invalid_parameter)
        handles ← locate_paths fw
        matched ←
            match_handles target
              (paths.from_nodes (after_drive paths false (paths.iter partial_path))) none handles
        lift (ok_or matched not_found)
