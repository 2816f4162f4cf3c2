-- ===== src/Boot/Connect.antt =====
-- The connection of controllers (uefi/crates/patina_boot/src/helpers.rs, strategies/connect_all.rs,
-- and the dispatch between connections in orchestrators/simple_boot_manager.rs). A handle is its
-- number; the set of the handles attempted is a list without order.
pub mod Once
pub mod Settles
pub mod SkipUsb
use odp_platform_common.Common.{
  ℕ, zero, suc, ◌+◌, ◌*◌, ◌/◌, ◌%◌, ◌^◌, Bool, true, false, Option, none, some, List, [], ◌∷◌,
  length, contains, ◌==◌, if◌then◌else◌,
}
use odp_platform_common.Common.Result.{Result, ok, err, map_ok}
use odp_platform_common.Common.Action.{Action, ◌>>=◌, ◌>>◌, lift}
use odp_platform_common.Boot.Firmware.{
  EfiError, pci_io, HandleSearchType, all_handles, Call, locate_handles, interface_of, read_pci,
  connect, dispatch, History, Firmware, Boot, ask, attempt,
}

-- A class that cannot be read is not that of a USB host controller.
unfoldable pub is_usb_class : Result ℕ EfiError → Bool
is_usb_class (ok class) = class == 0x0c03
is_usb_class (err e) = false

module _ {DevicePath : Type 0} (fw : Firmware DevicePath) where
  unfoldable pub locate_all : Boot DevicePath (List ℕ)
  locate_all = ask (locate_handles all_handles) λ h. fw.locate_handle_buffer h all_handles

  -- Base class and subclass: the two high bytes of the register.
  unfoldable pub pci_class : ℕ → Boot DevicePath ℕ
  pci_class handle = do
    pci ← ask (interface_of pci_io handle) λ h. fw.handle_protocol h pci_io handle
    class ← ask (read_pci pci) λ h. fw.pci_read h pci
    lift (ok (class / 2 ^ 24 % 256 * 256 + class / 2 ^ 16 % 256))

  unfoldable pub connect_one : ℕ → Bool → Boot DevicePath (Result (Unit {0}) EfiError)
  connect_one handle recursive =
      attempt (ask (connect handle recursive) λ h. fw.connect_controller h handle recursive)

  -- A pass of `connect_all` over the handles located, with those attempted and the count of the
  -- new ones.
  unfoldable pub connect_pass :
      List ℕ → List ℕ → ℕ → History DevicePath → History DevicePath × (List ℕ × ℕ)
  unfolding connect_one
  connect_pass [] connected newly h = (h, (connected, newly))
  connect_pass (handle ∷ handles) connected newly h = elim (contains connected handle) [
    | true ↦ connect_pass handles connected newly h
    | false ↦ connect_pass handles (handle ∷ connected) (suc newly) (connect_one handle true h).0
  ]

  -- The passes left, which are the iterations of the source.
  unfoldable pub connect_passes : ℕ → List ℕ → Boot DevicePath (Unit {0})
  unfolding locate_all connect_pass
  connect_passes zero connected h = (h, ok tt)
  connect_passes (suc left) connected h =
      let (h', located) = locate_all h in
      elim located [
        | err e ↦ (h', err e)
        | ok handles ↦
            let (h'', (connected', newly)) = connect_pass handles connected 0 h' in
            elim (newly == 0) [ true ↦ (h'', ok tt) | false ↦ connect_passes left connected' h'' ]
      ]

  unfoldable pub connect_all : Boot DevicePath (Unit {0})
  unfolding connect_passes
  connect_all = connect_passes 10 []

  -- A pass of `connect_all_skip_usb`: a USB host controller is attempted, and not connected.
  unfoldable pub skip_pass :
      List ℕ → List ℕ → ℕ → History DevicePath → History DevicePath × (List ℕ × ℕ)
  unfolding pci_class is_usb_class connect_one
  skip_pass [] connected newly h = (h, (connected, newly))
  skip_pass (handle ∷ handles) connected newly h = elim (contains connected handle) [
    | true ↦ skip_pass handles connected newly h
    | false ↦
        let (h', class) = pci_class handle h in
        elim (is_usb_class class) [
          | true ↦ skip_pass handles (handle ∷ connected) newly h'
          | false ↦
              skip_pass handles (handle ∷ connected) (suc newly) (connect_one handle false h').0
        ]
  ]

  unfoldable pub skip_passes : ℕ → List ℕ → Boot DevicePath (Unit {0})
  unfolding locate_all skip_pass
  skip_passes zero connected h = (h, ok tt)
  skip_passes (suc left) connected h =
      let (h', located) = locate_all h in
      elim located [
        | err e ↦ (h', err e)
        | ok handles ↦
            let (h'', (connected', newly)) = skip_pass handles connected 0 h' in
            elim (newly == 0) [ true ↦ (h'', ok tt) | false ↦ skip_passes left connected' h'' ]
      ]

  unfoldable pub connect_all_skip_usb : Boot DevicePath (Unit {0})
  unfolding skip_passes
  connect_all_skip_usb = skip_passes 20 []

  unfoldable pub total_handle_count : Boot DevicePath ℕ
  unfolding locate_all
  total_handle_count h = let (h', located) = locate_all h in (h', map_ok length located)

  unfoldable pub dispatch_once : Boot DevicePath Bool
  dispatch_once = ask dispatch fw.dispatch_drivers

  -- A connection and a dispatch.
  unfoldable pub connect_round : Boot DevicePath (Unit {0}) → Boot DevicePath ℕ
  unfolding dispatch_once total_handle_count
  connect_round connect_fn = do connect_fn; dispatch_once; total_handle_count

  -- The loop, on fuel: `none` where the number of handles still grew after so many rounds.
  unfoldable pub interleave_rounds :
      Boot DevicePath (Unit {0})
      → ℕ
      → ℕ
      → History DevicePath
      → History DevicePath × Option (Result (Unit {0}) EfiError)
  unfolding connect_round
  interleave_rounds connect_fn zero previous h = (h, none)
  interleave_rounds connect_fn (suc fuel) previous h =
      let (h', counted) = connect_round connect_fn h in
      elim counted [
        | err e ↦ (h', some (err e))
        | ok current ↦ elim (current == previous) [
          | true ↦ (h', some (ok tt))
          | false ↦ interleave_rounds connect_fn fuel current h'
        ]
      ]

  unfoldable pub interleave_connect_and_dispatch :
      Boot DevicePath (Unit {0})
      → ℕ
      → History DevicePath
      → History DevicePath × Option (Result (Unit {0}) EfiError)
  unfolding total_handle_count interleave_rounds
  interleave_connect_and_dispatch connect_fn fuel h =
      let (h', counted) = total_handle_count h in
      elim counted [
        | err e ↦ (h', some (err e))
        | ok count ↦ interleave_rounds connect_fn fuel count h'
      ]
