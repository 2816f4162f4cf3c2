-- ===== src/Boot/Connect/SkipUsb.antt =====
-- The connection that leaves USB host controllers alone.
use odp_platform_common.Common.{
  ◌+◌, ◌*◌, ◌/◌, ◌%◌, ◌^◌, ◌≢◌, arith, ℕ, zero, suc, Bool, true, false, List, [], ◌∷◌, contains,
  ◌==◌, Bool-cases, inl, inr, ◌≡◌, refl,
}
use odp_platform_common.Common.Result.{Result-cases, ok}
use odp_platform_common.Boot.Firmware.{
  all_handles, pci_io, Call, locate_handles, interface_of, read_pci, connect, History, Firmware,
}
use odp_platform_common.Boot.Connect.{
  locate_all, pci_class, is_usb_class, connect_one, skip_pass, skip_passes, connect_all_skip_usb,
}

abbrev is_connect : {DevicePath : Type 0} → Call DevicePath → Bool
is_connect (connect handle recursive) = true
is_connect _ = false

module _ {DevicePath : Type 0} (fw : Firmware DevicePath) (past : History DevicePath) where
  -- A register of a PCI device, read just now, that is not that of a USB host controller: its base
  -- class and its subclass, the two high bytes, are not 0x0c and 0x03.
  abbrev pub NoUsbHost : ℕ → History DevicePath → Type 0
  NoUsbHost handle h =
      (pci class : ℕ)
      → fw.handle_protocol h pci_io handle ≡ ok pci
      → fw.pci_read (interface_of pci_io handle ∷ h) pci ≡ ok class
      → class / 2 ^ 24 % 256 ≡ 0x0c
      → class / 2 ^ 16 % 256 ≢ 0x03

  -- Since `past`, a controller was connected only without its children, and right after its class
  -- was read and was not that of a USB host controller.
  pub data Checked : History DevicePath → Type 0 where
    start : Checked past
    other :
        {h : History DevicePath} (c : Call DevicePath)
        → is_connect c ≡ false
        → Checked h
        → Checked (c ∷ h)
    bound :
        (handle : ℕ) (h : History DevicePath)
        → NoUsbHost handle h
        → Checked (pci_class fw handle h).0
        → Checked (connect handle false ∷ (pci_class fw handle h).0)

  pci_class-NoUsbHost :
      (handle : ℕ) (h : History DevicePath)
      → is_usb_class (pci_class fw handle h).1 ≡ false
      → NoUsbHost handle h
  unfolding pci_class is_usb_class
  pci_class-NoUsbHost handle h no_usb pci class opened read base sub =
      let e : (class / 2 ^ 24 % 256 * 256 + class / 2 ^ 16 % 256 == 0x0c03) ≡ false =
        rw (pci_class, opened, read) at no_usb in
      absurd (ground (arith, base, sub))

  pci_class-Checked :
      (handle : ℕ) (h : History DevicePath) → Checked h → Checked (pci_class fw handle h).0
  unfolding pci_class
  pci_class-Checked handle h c =
      let asked = Checked.other (interface_of pci_io handle) refl c in
      elim (Result-cases (fw.handle_protocol h pci_io handle)) [
        | inr (e, same) ↦ rw (pci_class, same) asked
        | inl (pci, same) ↦ elim (Result-cases (fw.pci_read (interface_of pci_io handle ∷ h) pci)) [
          | inr (e, read) ↦ rw (pci_class, same, read) (Checked.other (read_pci pci) refl asked)
          | inl (class, read) ↦ rw (pci_class, same, read) (Checked.other (read_pci pci) refl asked)
        ]
      ]

  skip_pass-Checked :
      (handles connected : List ℕ) (newly : ℕ) (h : History DevicePath)
      → Checked h
      → Checked (skip_pass fw handles connected newly h).0
  unfolding skip_pass connect_one
  skip_pass-Checked [] connected newly h c = c
  skip_pass-Checked (handle ∷ handles) connected newly h c =
      let (h', class) = pci_class fw handle h in
      let read = pci_class-Checked handle h c in
      elim (Bool-cases (contains connected handle)) [
        | inl old ↦ rw (skip_pass, old) (skip_pass-Checked handles connected newly h c)
        | inr new ↦ elim (Bool-cases (is_usb_class class)) [
          | inl usb ↦
              rw (skip_pass, new, usb)
                (skip_pass-Checked handles (handle ∷ connected) newly h' read)
          | inr no_usb ↦
              rw (skip_pass, new, no_usb)
                (skip_pass-Checked handles (handle ∷ connected) (suc newly)
                  (connect handle false ∷ h')
                  (Checked.bound handle h (pci_class-NoUsbHost handle h no_usb) read))
        ]
      ]

  skip_passes-Checked :
      (left : ℕ) (connected : List ℕ) (h : History DevicePath)
      → Checked h
      → Checked (skip_passes fw left connected h).0
  unfolding skip_passes locate_all
  skip_passes-Checked zero connected h c = c
  skip_passes-Checked (suc left) connected h c =
      let h' = locate_handles all_handles ∷ h in
      let located = Checked.other (locate_handles all_handles) refl c in
      elim (Result-cases (fw.locate_handle_buffer h all_handles)) [
        | inr (e, same) ↦ rw (skip_passes, same) located
        | inl (handles, same) ↦
            let (h'', (connected', newly)) = skip_pass fw handles connected 0 h' in
            let passed = skip_pass-Checked handles connected 0 h' located in
            elim (Bool-cases (newly == 0)) [
              | inl none_new ↦ rw (skip_passes, same, none_new) passed
              | inr some_new ↦
                  rw (skip_passes, same, some_new) (skip_passes-Checked left connected' h'' passed)
            ]
      ]

-- Every controller that this connects is connected without its children, right after its class was
-- asked for: where the register could be read, its base class and subclass were not 0x0c and 0x03, those
-- of a USB host controller.
pub connect_all_skip_usb-Checked :
    {DevicePath : Type 0} (fw : Firmware DevicePath) (h : History DevicePath)
    → Checked fw h (connect_all_skip_usb fw h).0
unfolding connect_all_skip_usb
connect_all_skip_usb-Checked fw h = skip_passes-Checked fw h 20 [] h Checked.start
