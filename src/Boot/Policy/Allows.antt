-- ===== src/Boot/Policy/Allows.antt =====
-- Which candidates a policy allows.
use odp_platform_common.Common.{
  true, some, any, any_iff, any_of, Bool-cases, ◌≡◌, ◌⊎◌, ◌↔◌, refl, sym, ap, ◌∙◌, inl, inr,
  filter_map_of, filter_map_found, arith, Memᴰ,
}
use mathlib.Core.List.{filter_map}
use odp_platform_common.Text.Search.{text_eq_iff, text_eq_refl}
use odp_platform_common.Boot.Paths.{HardDrive, Paths}
use odp_platform_common.Boot.Policy.{
  BootSourcePolicy, hard_drive_identity_matches, hard_drive_nodes, is_usb_node, is_usb_device_path,
  approves, allows_device, has_sources,
}

-- The identity of a partition is all that is read of its node.
pub hard_drive_identity_matches_iff :
    (left right : HardDrive) → (hard_drive_identity_matches left right ≡ true) ↔ (left ≡ right)
unfolding hard_drive_identity_matches
hard_drive_identity_matches_iff left right = (
  λ h. ground (arith, text_eq_iff left.partition_signature right.partition_signature),
  λ e. rw e (ground (arith, text_eq_refl right.partition_signature)),
)

module _ {Node DevicePath : Type 0} (paths : Paths Node DevicePath) where
  -- A node of the path is a hard drive node of this identity.
  abbrev pub HasDrive : DevicePath → HardDrive → Type 0
  HasDrive path hd =
      (node : Node) × Memᴰ node (paths.iter path) × (paths.try_from_node node ≡ some hd)

  -- A node of the path is a USB, USB class or USB WWID node.
  abbrev pub OnUsb : DevicePath → Type 0
  OnUsb path =
      (node : Node) × Memᴰ node (paths.iter path)
      × (paths.kind node ≡ 3)
      × ((paths.sub_type node ≡ 5) ⊎ (paths.sub_type node ≡ 15) ⊎ (paths.sub_type node ≡ 16))

  is_usb_node_iff :
      (node : Node)
      → (is_usb_node paths node ≡ true) ↔ (
          (paths.kind node ≡ 3)
          × ((paths.sub_type node ≡ 5) ⊎ (paths.sub_type node ≡ 15) ⊎ (paths.sub_type node ≡ 16)))
  unfolding is_usb_node
  is_usb_node_iff node = ground arith

  pub is_usb_device_path_iff :
      (path : DevicePath) → (is_usb_device_path paths path ≡ true) ↔ OnUsb path
  unfolding is_usb_device_path
  is_usb_device_path_iff path = (
    λ h.
        let (node, inside, e) = (any_iff (is_usb_node paths) (paths.iter path)).0 h in
        let (kind, sub) = (is_usb_node_iff node).0 e in (node, inside, kind, sub),
    λ f. any_of (is_usb_node paths) (paths.iter path) f.1 ((is_usb_node_iff f.0).1 (f.2, f.3)),
  )

  pub approves_iff :
      (candidate approved : DevicePath)
      → (approves paths candidate approved ≡ true)
        ↔ ((hd : HardDrive) × HasDrive approved hd × HasDrive candidate hd)
  unfolding approves hard_drive_nodes
  approves_iff candidate approved = (
    λ h.
        let (left, inside, h') = (any_iff _ _).0 h in
        let (right, inside', same) = (any_iff _ _).0 h' in
        let e = (hard_drive_identity_matches_iff left right).0 same in
        let (n, m, d) = filter_map_found paths.try_from_node (paths.iter approved) inside in
        let (n', m', d') = filter_map_found paths.try_from_node (paths.iter candidate) inside' in
        (left, (n, m, d), (n', m', d' ∙ ap some (sym e))),
    λ f.
        let (hd, (n, m, d), (n', m', d')) = f in
        any_of _ _ (filter_map_of paths.try_from_node _ m d) (
          any_of _ _ (filter_map_of paths.try_from_node _ m' d')
            ((hard_drive_identity_matches_iff hd hd).1 refl)),
  )

  -- The policy allows a USB candidate exactly if it permits removable media, and any other one
  -- exactly if a partition on its path has the identity of a partition of an approved device.
  pub allows_device_iff :
      (policy : BootSourcePolicy DevicePath) (candidate : DevicePath)
      → (allows_device paths policy candidate ≡ true) ↔ (
          (OnUsb candidate × (policy.removable_media ≡ true))
          ⊎ (¬ OnUsb candidate
              × ((approved : DevicePath) × Memᴰ approved policy.approved_internal_devices
                  × (hd : HardDrive) × HasDrive approved hd
                  × HasDrive candidate hd)))
  unfolding allows_device
  allows_device_iff policy candidate = elim (Bool-cases (is_usb_device_path paths candidate)) [
    | inl yes_usb ↦
        let on = (is_usb_device_path_iff candidate).0 yes_usb in
        (
          λ h. let permitted : policy.removable_media ≡ true = ground arith in inl (on, permitted),
          λ f. elim f [ inl f ↦ rw yes_usb f.1 | inr f ↦ absurd (f.0 on) ],
        )
    | inr no_usb ↦
        let off : ¬ OnUsb candidate = λ on. cc (no_usb, (is_usb_device_path_iff candidate).1 on) in
        (
          λ h.
              let h' : any policy.approved_internal_devices (approves paths candidate) ≡ true =
                rw no_usb at h in
              let (approved, inside, e) = (any_iff _ _).0 h' in
              let (hd, a, c) = (approves_iff candidate approved).0 e in
              inr (off, (approved, inside, hd, a, c)),
          λ f. elim f [
            | inl f ↦ absurd (off f.0)
            | inr f ↦
                let (approved, inside, hd, a, c) = f.1 in
                rw no_usb (any_of _ _ inside ((approves_iff candidate approved).1 (hd, a, c)))
          ],
        )
  ]

  removable :
      (policy : BootSourcePolicy DevicePath)
      → policy.removable_media ≡ true
      → has_sources paths policy ≡ true
  unfolding has_sources
  removable policy h = rw h

  has_sources_of :
      (policy : BootSourcePolicy DevicePath) (approved : DevicePath) {hd : HardDrive}
      → Memᴰ approved policy.approved_internal_devices
      → HasDrive approved hd
      → has_sources paths policy ≡ true
  unfolding has_sources hard_drive_nodes
  has_sources_of policy approved inside (node, m, d) =
      let some_drive =
        any_of (λ _. true) _ (filter_map_of paths.try_from_node (paths.iter approved) m d) refl in
      let found =
        any_of (λ a. any (filter_map paths.try_from_node (paths.iter a)) (λ _. true))
          policy.approved_internal_devices inside some_drive in
      rw found (ground arith)

  -- A policy that allows any device at all reports that it has sources: the early return for a
  -- policy without sources refuses no device that the policy would allow.
  pub has_sources-allows_device :
      (policy : BootSourcePolicy DevicePath) (candidate : DevicePath)
      → allows_device paths policy candidate ≡ true
      → has_sources paths policy ≡ true
  has_sources-allows_device policy candidate h = elim ((allows_device_iff policy candidate).0 h) [
    | inl f ↦ removable policy f.1
    | inr f ↦ has_sources_of policy f.1.0 f.1.1 f.1.3
  ]
