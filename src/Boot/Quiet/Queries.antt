-- ===== src/Boot/Quiet/Queries.antt =====
-- The helpers that only ask for handles, interfaces, variables and keys keep every property of the
-- history that silent calls keep.
use odp_platform_common.Common.{
  ℕ, zero, suc, Bool-cases, inl, inr, false, Option, Option-cases, none, some, List, [], ◌∷◌,
  contains, ◌==◌, refl,
}
use odp_platform_common.Common.Result.{Result-cases, ok_or}
use odp_platform_common.Text.{Text, codes}
use odp_platform_common.Boot.Firmware.{
  Protocol, simple_text_input, simple_text_output, graphics_output, device_path, by_protocol,
  locate_handles, interface_of, read_key, set_variable, History, Firmware, invalid_parameter,
}
use odp_platform_common.Boot.Firmware.Keeps.{Keeps, Stays, Keeps-bind, Keeps-if}
use odp_platform_common.Boot.Paths.{HardDrive, Paths}
use odp_platform_common.Boot.Expand.{
  path_of, expansion, match_handles, locate_paths, expand_device_path, is_partial_device_path,
  has_real_node, find_drive, after_drive,
}
use odp_platform_common.Boot.Console.{
  collect_handles, collect_protocols, build_multi_instance_device_path, write_console,
  discover_console_devices,
}
use odp_platform_common.Boot.Attempt.{
  read_keys, detect_hotkey_from_handles, detect_hotkey, full_path,
}

module _ {DevicePath : Type 0} (P : History DevicePath → Type 0) (stays : Stays P)
    (fw : Firmware DevicePath) where
  pub path_of-Keeps : (handle : ℕ) (h : History DevicePath) → P h → P (path_of fw handle h).0
  unfolding path_of
  path_of-Keeps handle h p =
      let asked = stays (interface_of device_path handle) h refl p in
      elim (Result-cases (fw.handle_protocol h device_path handle)) [
        | inl (interface, same) ↦ rw (path_of, same) asked
        | inr (e, same) ↦ rw (path_of, same) asked
      ]

  read_keys-Keeps :
      (fuel scancode interface : ℕ) (h : History DevicePath)
      → P h
      → P (read_keys fw fuel scancode interface h).0
  unfolding read_keys
  read_keys-Keeps zero scancode interface h p = p
  read_keys-Keeps (suc fuel) scancode interface h p =
      let asked = stays (read_key interface) h refl p in
      elim (Result-cases (fw.read_key_stroke h interface)) [
        | inr (e, same) ↦ rw (read_keys, same) asked
        | inl (key, same) ↦ elim (Bool-cases (key == scancode)) [
          | inl hit ↦ rw (read_keys, same, hit) asked
          | inr other ↦
              rw (read_keys, same, other)
                (read_keys-Keeps fuel scancode interface (read_key interface ∷ h) asked)
        ]
      ]

  detect_hotkey_from_handles-Keeps :
      (fuel scancode : ℕ) (handles : List ℕ) (h : History DevicePath)
      → P h
      → P (detect_hotkey_from_handles fw fuel scancode handles h).0
  unfolding detect_hotkey_from_handles
  detect_hotkey_from_handles-Keeps fuel scancode [] h p = p
  detect_hotkey_from_handles-Keeps fuel scancode (handle ∷ handles) h p =
      let h' = interface_of simple_text_input handle ∷ h in
      let asked = stays (interface_of simple_text_input handle) h refl p in
      elim (Result-cases (fw.handle_protocol h simple_text_input handle)) [
        | inr (e, same) ↦
            rw (detect_hotkey_from_handles, same)
              (detect_hotkey_from_handles-Keeps fuel scancode handles h' asked)
        | inl (interface, same) ↦
            let (h'', found) = read_keys fw fuel scancode interface h' in
            let keys = read_keys-Keeps fuel scancode interface h' asked in
            elim (Option-cases found) [
              | inl out ↦ rw (detect_hotkey_from_handles, same, out) keys
              | inr (hit, some_hit) ↦ elim (Bool-cases hit) [
                | inl yes_hit ↦ rw (detect_hotkey_from_handles, same, some_hit, yes_hit) keys
                | inr no_hit ↦
                    rw (detect_hotkey_from_handles, same, some_hit, no_hit)
                      (detect_hotkey_from_handles-Keeps fuel scancode handles h'' keys)
              ]
            ]
      ]

  pub detect_hotkey-Keeps :
      (fuel scancode : ℕ) (h : History DevicePath) → P h → P (detect_hotkey fw fuel scancode h).0
  unfolding detect_hotkey
  detect_hotkey-Keeps fuel scancode h p =
      let asked = stays (locate_handles (by_protocol simple_text_input)) h refl p in
      elim (Result-cases (fw.locate_handle_buffer h (by_protocol simple_text_input))) [
        | inr (e, same) ↦ rw (detect_hotkey, same) asked
        | inl (handles, same) ↦
            rw (detect_hotkey, same)
              (detect_hotkey_from_handles-Keeps fuel scancode handles _ asked)
      ]

module _ {Node DevicePath : Type 0} (paths : Paths Node DevicePath)
    (P : History DevicePath → Type 0) (stays : Stays P) (fw : Firmware DevicePath) where
  match_handles-Keeps :
      (target : HardDrive) (remaining : DevicePath) (matched : Option DevicePath) (handles : List ℕ)
      → Keeps P (match_handles paths fw target remaining matched handles)
  unfolding match_handles
  match_handles-Keeps target remaining matched [] h p = p
  match_handles-Keeps target remaining matched (handle ∷ handles) h p =
      let (h', path) = path_of fw handle h in
      let asked = path_of-Keeps P stays fw handle h p in
      elim (Option-cases (expansion paths target remaining path)) [
        | inl other ↦
            rw (match_handles, other)
              (match_handles-Keeps target remaining matched handles h' asked)
        | inr (full, hit) ↦ elim (Option-cases matched) [
          | inl first ↦
              rw (match_handles, hit, first)
                (match_handles-Keeps target remaining (some full) handles h' asked)
          | inr (other, second) ↦ rw (match_handles, hit, second) asked
        ]
      ]

  expand_device_path-Keeps : (path : DevicePath) → Keeps P (expand_device_path paths fw path)
  unfolding expand_device_path locate_paths
  expand_device_path-Keeps path h p = elim (Bool-cases (has_real_node paths path)) [
    | inr empty ↦ rw (expand_device_path, empty) p
    | inl real ↦ elim (Bool-cases (is_partial_device_path paths path)) [
      | inr full ↦ rw (expand_device_path, real, full) p
      | inl partial ↦
          rw (expand_device_path, real, partial)
            (Keeps-bind P (h, ok_or (find_drive paths (paths.iter path)) invalid_parameter) _ p
              λ target h' p'.
                let asked = stays (locate_handles (by_protocol device_path)) h' refl p' in
                Keeps-bind P
                  (
                    locate_handles (by_protocol device_path) ∷ h',
                    fw.locate_handle_buffer h' (by_protocol device_path),
                  )
                  _ asked
                  λ handles h'' p''.
                    Keeps-bind P
                      (match_handles paths fw target
                        (paths.from_nodes (after_drive paths false (paths.iter path))) none handles
                        h'')
                      _ (match_handles-Keeps target _ none handles h'' p'') λ matched _ last. last)
    ]
  ]

  pub full_path-Keeps : (path : DevicePath) → Keeps P (full_path paths fw path)
  unfolding full_path
  full_path-Keeps path =
      Keeps-if P (is_partial_device_path paths path) (expand_device_path paths fw path) _
        (expand_device_path-Keeps path) λ h p. p

  collect_handles-Keeps :
      (handles : List ℕ) (result : Option DevicePath) (seen : List ℕ)
      → Keeps P (collect_handles paths fw handles result seen)
  unfolding collect_handles
  collect_handles-Keeps [] result seen h p = p
  collect_handles-Keeps (handle ∷ handles) result seen h p =
      elim (Bool-cases (contains seen handle)) [
        | inl old ↦ rw (collect_handles, old) (collect_handles-Keeps handles result seen h p)
        | inr new ↦
            rw (collect_handles, new)
              (collect_handles-Keeps handles _ (handle ∷ seen) _
                (path_of-Keeps P stays fw handle h p))
      ]

  collect_protocols-Keeps :
      (guids : List Protocol) (result : Option DevicePath) (seen : List ℕ)
      → Keeps P (collect_protocols paths fw guids result seen)
  unfolding collect_protocols
  collect_protocols-Keeps [] result seen h p = p
  collect_protocols-Keeps (guid ∷ guids) result seen h p =
      let asked = stays (locate_handles (by_protocol guid)) h refl p in
      elim (Result-cases (fw.locate_handle_buffer h (by_protocol guid))) [
        | inr (e, same) ↦
            rw (collect_protocols, same) (collect_protocols-Keeps guids result seen _ asked)
        | inl (handles, same) ↦
            rw (collect_protocols, same)
              (Keeps-bind P
                (collect_handles paths fw handles result seen
                  (locate_handles (by_protocol guid) ∷ h))
                _ (collect_handles-Keeps handles result seen _ asked)
                λ collected h' p'. collect_protocols-Keeps guids collected.0 collected.1 h' p')
      ]

  write_console-Keeps :
      (name : Text) (guids : List Protocol) → Keeps P (write_console paths fw name guids)
  unfolding write_console build_multi_instance_device_path
  write_console-Keeps name guids h p =
      Keeps-bind P (collect_protocols paths fw guids none [] h) _
        (collect_protocols-Keeps guids none [] h p)
        λ found h' p'. elim (Option-cases found) [
          | inl absent ↦ rw absent p'
          | inr (path, present) ↦ rw present (stays (set_variable name _) h' refl p')
        ]

  pub discover_console_devices-Keeps : Keeps P (discover_console_devices paths fw)
  unfolding discover_console_devices
  discover_console_devices-Keeps h p =
      let in_guids = simple_text_input ∷ [] in
      let out_guids = simple_text_output ∷ graphics_output ∷ [] in
      let err_guids = simple_text_output ∷ [] in
      Keeps-bind P (write_console paths fw (codes "ConIn") in_guids h) _
        (write_console-Keeps (codes "ConIn") in_guids h p)
        λ _ h' p'.
          Keeps-bind P (write_console paths fw (codes "ConOut") out_guids h') _
            (write_console-Keeps (codes "ConOut") out_guids h' p')
            λ _ h'' p''.
              Keeps-bind P (write_console paths fw (codes "ErrOut") err_guids h'') _
                (write_console-Keeps (codes "ErrOut") err_guids h'' p'') λ _ _ last. last
