-- ===== src/Boot/Expand/Unique.antt =====
-- The expansion of a short-form path succeeds for a unique partition only.
use odp_platform_common.Common.{
  ℕ, true, false, Option, Option-cases, none, some, List, [], ◌∷◌, ◌++◌, inl, inr, ◌≡◌, refl,
}
use mathlib.Core.List.{filter_map}
use odp_platform_common.Common.Result.{Result, ok, err, ok_or}
use odp_platform_common.Common.Action.{continue_with}
use odp_platform_common.Boot.Firmware.{
  EfiError, not_found, security_violation, device_path, by_protocol, locate_handles, History,
  Firmware,
}
use odp_platform_common.Boot.Paths.{HardDrive, Paths}
use odp_platform_common.Boot.Expand.{
  path_of, expansion, match_handles, locate_paths, expand_device_path, is_partial_device_path,
  has_real_node, find_drive, after_drive,
}

-- The paths of the handles, read one after the other.
unfoldable pub handle_paths :
    {DevicePath : Type 0}
    → Firmware DevicePath
    → List ℕ
    → History DevicePath
    → List (Option DevicePath)
handle_paths fw [] h = []
handle_paths fw (handle ∷ handles) h =
    (path_of fw handle h).1 ∷ handle_paths fw handles (path_of fw handle h).0

-- The one element of a list; two are a violation.
abbrev pub unique : {A : Type 0} → List A → Result A EfiError
unique [] = err not_found
unique (x ∷ []) = ok x
unique (x ∷ y ∷ xs) = err security_violation

abbrev at_most_one : {A : Type 0} → List A → Result (Option A) EfiError
at_most_one [] = ok none
at_most_one (x ∷ []) = ok (some x)
at_most_one (x ∷ y ∷ xs) = err security_violation

abbrev to_list : {A : Type 0} → Option A → List A
to_list none = []
to_list (some x) = x ∷ []

module _ {Node DevicePath : Type 0} (paths : Paths Node DevicePath) (fw : Firmware DevicePath) where
  match_handles-at_most_one :
      (target : HardDrive) (remaining : DevicePath) (matched : Option DevicePath) (handles : List ℕ)
      (h : History DevicePath)
      → (match_handles paths fw target remaining matched handles h).1
        ≡ at_most_one (
            to_list matched
            ++ filter_map (expansion paths target remaining) (handle_paths fw handles h))
  unfolding match_handles handle_paths filter_map
  match_handles-at_most_one target remaining none [] h = refl
  match_handles-at_most_one target remaining (some other) [] h = refl
  match_handles-at_most_one target remaining matched (handle ∷ handles) h =
      let (h', path) = path_of fw handle h in
      let f = expansion paths target remaining in
      elim (Option-cases (f path)) [
        | inl e ↦
            rw (match_handles, e) (match_handles-at_most_one target remaining matched handles h')
        | inr (full, e) ↦ elim (Option-cases matched) [
          | inl first ↦
              rw (match_handles, e, first)
                (match_handles-at_most_one target remaining (some full) handles h')
          | inr (other, second) ↦ rw (match_handles, e, second) refl
        ]
      ]

  unique_of :
      (found : List DevicePath) (r : Result (Option DevicePath) EfiError) (h : History DevicePath)
      → r ≡ at_most_one found
      → (continue_with (h, r) λ matched h'. (h', ok_or matched not_found)).1 ≡ unique found
  unique_of [] r h e = rw e refl
  unique_of (x ∷ []) r h e = rw e refl
  unique_of (x ∷ y ∷ found) r h e = rw e refl

  -- A short-form path with a hard drive node expands, where the handles can be located, to the one
  -- expansion that the paths of all handles give. No expansion is `NotFound`, and two or more are a
  -- `SecurityViolation`, even if they are the same.
  pub expand_device_path-unique :
      (path : DevicePath) (target : HardDrive) (h : History DevicePath) (handles : List ℕ)
      → has_real_node paths path ≡ true
      → is_partial_device_path paths path ≡ true
      → find_drive paths (paths.iter path) ≡ some target
      → fw.locate_handle_buffer h (by_protocol device_path) ≡ ok handles
      → (expand_device_path paths fw path h).1
        ≡ unique (
            filter_map
              (expansion paths target
                (paths.from_nodes (after_drive paths false (paths.iter path))))
              (handle_paths fw handles (locate_handles (by_protocol device_path) ∷ h)))
  unfolding expand_device_path locate_paths
  expand_device_path-unique path target h handles real partial drive located =
      let remaining = paths.from_nodes (after_drive paths false (paths.iter path)) in
      let asked = locate_handles (by_protocol device_path) ∷ h in
      rw (expand_device_path, real, partial, drive, located)
        (unique_of _ (match_handles paths fw target remaining none handles asked).1
          (match_handles paths fw target remaining none handles asked).0
          (match_handles-at_most_one target remaining none handles asked))
