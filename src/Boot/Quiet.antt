-- ===== src/Boot/Quiet.antt =====
-- The helpers that load and start no image keep every property of the history that silent calls
-- keep.
pub mod Queries
pub mod Options
use odp_platform_common.Common.{
  ℕ, zero, suc, Bool, Bool-cases, inl, inr, Bool, Bool-cases, inl, inr, Bool, Bool-cases, inl, inr,
  true, false, Option, none, some, List, [], ◌∷◌, contains, ◌==◌, refl,
}
use odp_platform_common.Common.Result.{Result, Result-cases, ok, err}
use odp_platform_common.Common.Action.{◌>>=◌, ◌>>◌, lift}
use odp_platform_common.Boot.Firmware.{
  EventGroup, ProxyEntry, Protocol, all_handles, locate_handles, interface_of, read_pci, read_key,
  create, signal, close, locate_protocol, proxy, end_of_dxe, end_of_dxe, end_of_dxe, connect,
  dispatch, boot_mgr_proxy, pci_io, device_path, simple_text_input, by_protocol, set_variable,
  History, Firmware, Boot, ask, attempt,
}
use odp_platform_common.Boot.Firmware.Keeps.{Keeps, Stays, Keeps-bind}
use odp_platform_common.Boot.Proxy as Proxy
use odp_platform_common.Boot.Events.{signal_group, enter_locked_boot, signal_bds_phase_entry}
use odp_platform_common.Boot.Connect.{
  locate_all, pci_class, is_usb_class, connect_one, connect_pass, connect_passes, connect_all,
  skip_pass, skip_passes, connect_all_skip_usb, total_handle_count, dispatch_once, connect_round,
  interleave_rounds, interleave_connect_and_dispatch,
}
use odp_platform_common.Boot.Expand.{
  path_of, expansion, match_handles, locate_paths, expand_device_path, is_partial_device_path,
  has_real_node, find_drive, after_drive,
}

module _ {DevicePath : Type 0} (P : History DevicePath → Type 0) (stays : Stays P)
    (fw : Firmware DevicePath) where
  pub signal_group-Keeps : (group : EventGroup) → Keeps P (signal_group fw group)
  unfolding signal_group
  signal_group-Keeps group h p =
      let created = stays (create group) h refl p in
      Keeps-bind P (create group ∷ h, fw.create_event_ex h group) _ created
        λ event h' p'.
          let signalled = stays (signal event) h' refl p' in
          let closed = stays (close event) (signal event ∷ h') refl signalled in
          Keeps-bind P (close event ∷ signal event ∷ h', fw.signal_event h' event) _ closed
            λ _ h'' p''. p''

  pub call_entry-Keeps : (entry : ProxyEntry) → Keeps P (Proxy.call_entry fw entry)
  unfolding Proxy.call_entry Proxy.call Proxy.locate
  call_entry-Keeps entry h p =
      let located = stays (locate_protocol boot_mgr_proxy) h refl p in
      Keeps-bind P (Proxy.locate fw h) _
        (Keeps-bind P
          (locate_protocol boot_mgr_proxy ∷ h, fw.locate_protocol_unchecked h boot_mgr_proxy) _
          located λ interface h' p'. p')
        λ interface h' p'. stays (proxy entry) h' refl p'

  pub enter_locked_boot-Keeps : Keeps P (enter_locked_boot fw)
  unfolding enter_locked_boot signal_bds_phase_entry Proxy.install_dxe_smm_ready_to_lock
  enter_locked_boot-Keeps h p =
      Keeps-bind P (signal_bds_phase_entry fw h) _ (signal_group-Keeps end_of_dxe h p)
        λ _ h' p'. call_entry-Keeps ProxyEntry.install_dxe_smm_ready_to_lock h' p'

  connect_one-Keeps : (handle : ℕ) (b : Bool) → Keeps P (connect_one fw handle b)
  unfolding connect_one
  connect_one-Keeps handle b h p = stays (connect handle b) h refl p

  connect_pass-Keeps :
      (handles connected : List ℕ) (newly : ℕ) (h : History DevicePath)
      → P h
      → P (connect_pass fw handles connected newly h).0
  unfolding connect_pass
  connect_pass-Keeps [] connected newly h p = p
  connect_pass-Keeps (handle ∷ handles) connected newly h p =
      elim (Bool-cases (contains connected handle)) [
        | inl old ↦ rw (connect_pass, old) (connect_pass-Keeps handles connected newly h p)
        | inr new ↦
            rw (connect_pass, new)
              (connect_pass-Keeps handles (handle ∷ connected) (suc newly) _
                (connect_one-Keeps handle true h p))
      ]

  connect_passes-Keeps :
      (left : ℕ) (connected : List ℕ) → Keeps P (connect_passes fw left connected)
  unfolding connect_passes locate_all
  connect_passes-Keeps zero connected h p = p
  connect_passes-Keeps (suc left) connected h p =
      let located = stays (locate_handles all_handles) h refl p in
      elim (Result-cases (fw.locate_handle_buffer h all_handles)) [
        | inr (e, same) ↦ rw (connect_passes, same) located
        | inl (handles, same) ↦
            let h' = locate_handles all_handles ∷ h in
            let passed = connect_pass-Keeps handles connected 0 h' located in
            elim (Bool-cases ((connect_pass fw handles connected 0 h').1.1 == 0)) [
              | inl none_new ↦ rw (connect_passes, same, none_new) passed
              | inr some_new ↦
                  rw (connect_passes, same, some_new)
                    (connect_passes-Keeps left (connect_pass fw handles connected 0 h').1.0
                      (connect_pass fw handles connected 0 h').0 passed)
            ]
      ]

  pub connect_all-Keeps : Keeps P (connect_all fw)
  unfolding connect_all
  connect_all-Keeps = connect_passes-Keeps 10 []

  pci_class-Keeps : (handle : ℕ) → Keeps P (pci_class fw handle)
  unfolding pci_class
  pci_class-Keeps handle h p =
      let asked = stays (interface_of pci_io handle) h refl p in
      Keeps-bind P (interface_of pci_io handle ∷ h, fw.handle_protocol h pci_io handle) _ asked
        λ pci h' p'.
          Keeps-bind P (read_pci pci ∷ h', fw.pci_read h' pci) _ (stays (read_pci pci) h' refl p')
            λ class h'' p''. p''

  skip_pass-Keeps :
      (handles connected : List ℕ) (newly : ℕ) (h : History DevicePath)
      → P h
      → P (skip_pass fw handles connected newly h).0
  unfolding skip_pass
  skip_pass-Keeps [] connected newly h p = p
  skip_pass-Keeps (handle ∷ handles) connected newly h p =
      let (h', class) = pci_class fw handle h in
      let read = pci_class-Keeps handle h p in
      elim (Bool-cases (contains connected handle)) [
        | inl old ↦ rw (skip_pass, old) (skip_pass-Keeps handles connected newly h p)
        | inr new ↦ elim (Bool-cases (is_usb_class class)) [
          | inl usb ↦
              rw (skip_pass, new, usb) (skip_pass-Keeps handles (handle ∷ connected) newly h' read)
          | inr other ↦
              rw (skip_pass, new, other)
                (skip_pass-Keeps handles (handle ∷ connected) (suc newly) _
                  (connect_one-Keeps handle false h' read))
        ]
      ]

  skip_passes-Keeps : (left : ℕ) (connected : List ℕ) → Keeps P (skip_passes fw left connected)
  unfolding skip_passes locate_all
  skip_passes-Keeps zero connected h p = p
  skip_passes-Keeps (suc left) connected h p =
      let h' = locate_handles all_handles ∷ h in
      let located = stays (locate_handles all_handles) h refl p in
      elim (Result-cases (fw.locate_handle_buffer h all_handles)) [
        | inr (e, same) ↦ rw (skip_passes, same) located
        | inl (handles, same) ↦
            let (h'', (connected', newly)) = skip_pass fw handles connected 0 h' in
            let passed = skip_pass-Keeps handles connected 0 h' located in
            elim (Bool-cases (newly == 0)) [
              | inl none_new ↦ rw (skip_passes, same, none_new) passed
              | inr some_new ↦
                  rw (skip_passes, same, some_new) (skip_passes-Keeps left connected' h'' passed)
            ]
      ]

  pub connect_all_skip_usb-Keeps : Keeps P (connect_all_skip_usb fw)
  unfolding connect_all_skip_usb
  connect_all_skip_usb-Keeps = skip_passes-Keeps 20 []

  total_handle_count-Keeps : Keeps P (total_handle_count fw)
  unfolding total_handle_count locate_all
  total_handle_count-Keeps h p = stays (locate_handles all_handles) h refl p

  module _ (connect_fn : Boot DevicePath (Unit {0})) (quiet : Keeps P connect_fn) where
    connect_round-Keeps : Keeps P (connect_round fw connect_fn)
    unfolding connect_round dispatch_once
    connect_round-Keeps h p = Keeps-bind P (connect_fn h) _ (quiet h p) λ _ h' p'.
        Keeps-bind P (dispatch ∷ h', fw.dispatch_drivers h') _ (stays dispatch h' refl p')
          λ _ h'' p''. total_handle_count-Keeps h'' p''

    interleave_rounds-Keeps :
        (fuel previous : ℕ) (h : History DevicePath)
        → P h
        → P (interleave_rounds fw connect_fn fuel previous h).0
    unfolding interleave_rounds
    interleave_rounds-Keeps zero previous h p = p
    interleave_rounds-Keeps (suc fuel) previous h p =
        let (h', counted) = connect_round fw connect_fn h in
        let round = connect_round-Keeps h p in
        elim (Result-cases counted) [
          | inr (e, same) ↦ rw (interleave_rounds, same) round
          | inl (current, same) ↦ elim (Bool-cases (current == previous)) [
            | inl stable ↦ rw (interleave_rounds, same, stable) round
            | inr grown ↦
                rw (interleave_rounds, same, grown) (interleave_rounds-Keeps fuel current h' round)
          ]
        ]

    pub interleave_connect_and_dispatch-Keeps :
        (fuel : ℕ) (h : History DevicePath)
        → P h
        → P (interleave_connect_and_dispatch fw connect_fn fuel h).0
    unfolding interleave_connect_and_dispatch
    interleave_connect_and_dispatch-Keeps fuel h p =
        let (h', counted) = total_handle_count fw h in
        let asked = total_handle_count-Keeps h p in
        elim (Result-cases counted) [
          | inr (e, same) ↦ rw (interleave_connect_and_dispatch, same) asked
          | inl (count, same) ↦
              rw (interleave_connect_and_dispatch, same)
                (interleave_rounds-Keeps fuel count h' asked)
        ]
