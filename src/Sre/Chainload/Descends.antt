-- ===== src/Sre/Chainload/Descends.antt =====
-- What the chainload boots, and when.
use odp_platform_common.Common.{
  ℕ, ◌-◌, ◌≤◌, Bool-cases, inl, inr, true, Option, some, some-injective, List, [], ◌∷◌, take, ltb,
  ◌==◌, ◌≡◌, ◌≢◌, refl, subst, arith,
}
use odp_platform_common.Common.Result.{Result-cases, ok_or}
use odp_platform_common.Text.{text_eq}
use odp_platform_common.Text.Search.{text_eq_iff}
use odp_platform_common.Recovery.DevicePath.{device_path_size}
use odp_platform_common.Boot.Fallback.{Arch}
use odp_platform_common.Boot.Firmware.{
  device_path, simple_file_system, by_protocol, connect, locate_path, locate_handles, interface_of,
  History, Firmware, not_found,
}
use odp_platform_common.Boot.Firmware.Keeps.{Keeps, Stays, Keeps-bind, Keeps-if}
use odp_platform_common.Boot.Attempt.{boot_from_device_path}
use odp_platform_common.Boot.Paths.{Paths}
use odp_platform_common.Sre.Chainload.{
  is_descendant, find_descendant, chainload_path, chainload_below, chainload_from_ramdisk,
}

module _ {DevicePath : Type 0} (fw : Firmware DevicePath) where
  -- The bytes of a path that stands at an interface, which is not null, of at least this length, and
  -- which begin with the bytes of the parent.
  abbrev pub Descends : ℕ → List ℕ → List ℕ → Type 0
  Descends payload parent bytes =
      (asked : History DevicePath) × (interface : ℕ) × (interface ≢ 0)
      × (fw.bytes_at asked interface ≡ bytes)
      × (payload ≤ device_path_size bytes)
      × (take payload bytes ≡ take payload parent)

  is_descendant-take :
      (payload : ℕ) (parent bytes : List ℕ)
      → is_descendant fw payload parent bytes ≡ true
      → (payload ≤ device_path_size bytes) × (take payload bytes ≡ take payload parent)
  unfolding is_descendant
  is_descendant-take payload parent bytes h =
      elim (Bool-cases (ltb (device_path_size bytes) payload)) [
        | inl short ↦ absurd (ground arith)
        | inr long ↦
            let same : text_eq (take payload bytes) (take payload parent) ≡ true = rw long at h in
            (ground arith, (text_eq_iff (take payload bytes) (take payload parent)).0 same)
      ]

  -- The volume that the chainload chooses stands at an interface that is not null, and the bytes of
  -- its path begin with those of the RAM disk's path, up to its end.
  pub find_descendant-Descends :
      (payload : ℕ) (parent : List ℕ) (handles : List ℕ) (h : History DevicePath) (bytes : List ℕ)
      → (find_descendant fw payload parent handles h).1 ≡ some bytes
      → Descends payload parent bytes
  unfolding find_descendant
  find_descendant-Descends payload parent [] h bytes e = cc
  find_descendant-Descends payload parent (handle ∷ handles) h bytes e =
      let asked = interface_of device_path handle ∷ h in
      elim (Result-cases (fw.handle_protocol h device_path handle)) [
        | inr (_, same) ↦
            let e' : (find_descendant fw payload parent handles asked).1 ≡ some bytes =
              rw (find_descendant, same) at e in
            find_descendant-Descends payload parent handles asked bytes e'
        | inl (interface, same) ↦ elim (Bool-cases (interface == 0)) [
          | inl null ↦
              let e' : (find_descendant fw payload parent handles asked).1 ≡ some bytes =
                rw (find_descendant, same, null) at e in
              find_descendant-Descends payload parent handles asked bytes e'
          | inr there ↦
              let at_interface = fw.bytes_at asked interface in
              elim (Bool-cases (is_descendant fw payload parent at_interface)) [
                | inl descends ↦
                    let e' : ◌≡◌ {A = Option (List ℕ)} (some at_interface) (some bytes) =
                      rw (find_descendant, same, there, descends) at e in
                    let same' = some-injective _ _ e' in
                    let (long, begins) =
                      is_descendant-take payload parent bytes
                        (subst (λ t. is_descendant fw payload parent t ≡ true) same' descends) in
                    (asked, interface, (λ z. absurd (ground arith)), same', long, begins)
                | inr other ↦
                    let e' : (find_descendant fw payload parent handles asked).1 ≡ some bytes =
                      rw (find_descendant, same, there, other) at e in
                    find_descendant-Descends payload parent handles asked bytes e'
              ]
        ]
      ]

  find_descendant-Keeps :
      (P : History DevicePath → Type 0)
      → Stays P
      → (payload : ℕ) (parent handles : List ℕ) (h : History DevicePath) → P h
      → P (find_descendant fw payload parent handles h).0
  unfolding find_descendant
  find_descendant-Keeps P stays payload parent [] h p = p
  find_descendant-Keeps P stays payload parent (handle ∷ handles) h p =
      let h' = interface_of device_path handle ∷ h in
      let asked = stays (interface_of device_path handle) h refl p in
      let rest = find_descendant-Keeps P stays payload parent handles h' asked in
      elim (Result-cases (fw.handle_protocol h device_path handle)) [
        | inr (_, same) ↦ rw (find_descendant, same) rest
        | inl (interface, same) ↦ elim (Bool-cases (interface == 0)) [
          | inl null ↦ rw (find_descendant, same, null) rest
          | inr there ↦
              elim (Bool-cases (is_descendant fw payload parent (fw.bytes_at h' interface))) [
                | inl descends ↦ rw (find_descendant, same, there, descends) asked
                | inr other ↦ rw (find_descendant, same, there, other) rest
              ]
        ]
      ]

module _ {Node DevicePath : Type 0} (paths : Paths Node DevicePath) (arch : Arch)
    (fw : Firmware DevicePath) (P : History DevicePath → Type 0) (stays : Stays P)
    (attempts : (parent : ℕ) (path : DevicePath)
      → Keeps P (boot_from_device_path paths fw parent path)) where
  chainload_below-Keeps :
      (image_handle : ℕ) (parent : List ℕ)
      → Keeps P (chainload_below paths arch fw image_handle parent)
  unfolding chainload_below
  chainload_below-Keeps image_handle parent =
      let by_file_system = by_protocol simple_file_system in
      Keeps-if P (ltb (device_path_size parent) 4) _ _ (λ h s. s)
        λ h s.
          Keeps-bind P (locate_handles by_file_system ∷ h, fw.locate_handle_buffer h by_file_system)
            _ (stays (locate_handles by_file_system) h refl s)
            λ handles h' s'.
              let (h'', found) =
                find_descendant fw (device_path_size parent - 4) parent handles h' in
              Keeps-bind P (h'', ok_or found not_found) _
                (find_descendant-Keeps fw P stays _ parent handles h' s')
                λ chosen last s''.
                  Keeps-bind P (last, chainload_path paths arch fw chosen) _ s''
                    λ full end t. attempts image_handle full end t

  -- What the attempts keep, the chainload of the recovery image keeps.
  pub chainload_from_ramdisk-Keeps :
      (image_handle parent_dp : ℕ)
      → Keeps P (chainload_from_ramdisk paths arch fw image_handle parent_dp)
  unfolding chainload_from_ramdisk
  chainload_from_ramdisk-Keeps image_handle parent_dp h s =
      Keeps-bind P (locate_path parent_dp ∷ h, fw.locate_device_path h parent_dp) _
        (stays (locate_path parent_dp) h refl s)
        λ ram_handle h' s'.
          let connected = stays (connect ram_handle true) h' refl s' in
          chainload_below-Keeps image_handle (fw.bytes_at (connect ram_handle true ∷ h') parent_dp)
            (connect ram_handle true ∷ h') connected
