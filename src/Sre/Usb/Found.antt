-- ===== src/Sre/Usb/Found.antt =====
-- What is found on USB.
use odp_platform_common.Common.{
  ℕ, ◌-◌, Bool-cases, Option, Option-cases, none, some, List, [], ◌∷◌, ◌++◌, take, ltb, ◌==◌, inl,
  inr, Memᴰ, ◌≡◌, ◌≢◌, refl, sym, ◌∙◌, arith,
}
use odp_platform_common.Common.Result.{Result-cases, ok}
use odp_platform_common.Recovery.DevicePath.{device_path_size, build_file_path_node}
use odp_platform_common.Recovery.DevicePath.Walk.{Spans, device_path_size_iff}
use odp_platform_common.Boot.Fallback.{Arch}
use odp_platform_common.Boot.Firmware.{
  device_path, simple_file_system, by_protocol, locate_handles, interface_of, History, Firmware,
}
use odp_platform_common.Boot.Paths.{Paths}
use odp_platform_common.Boot.Policy.{is_usb_device_path}
use odp_platform_common.Boot.Policy.Allows.{OnUsb, is_usb_device_path_iff}
use odp_platform_common.Sre.Usb.{
  default_boot_file_path, device_path_has_usb_node, with_loader, usb_option, option_at, first_usb,
  find_first_usb_sfs_device_path,
}

module _ {Node DevicePath : Type 0} (paths : Paths Node DevicePath) (arch : Arch)
    (fw : Firmware DevicePath) where
  -- This path was made of that of an interface: it is not null and holds a path on USB, whose bytes
  -- span a device path, and the bytes before its end, with the node of the default loader and its end,
  -- are the bytes of this path.
  abbrev pub OfUsbPath : History DevicePath → ℕ → DevicePath → Type 0
  OfUsbPath asked interface full =
      (dp : DevicePath) × (size : ℕ) × (interface ≢ 0)
      × (fw.path_at asked interface ≡ some dp)
      × OnUsb paths dp
      × Spans (fw.bytes_at asked interface) size
      × (paths.of_bytes (
            take (size - 4) (fw.bytes_at asked interface)
            ++ build_file_path_node (default_boot_file_path arch))
          ≡ some full)

  -- This path was made of the device path of one of these handles.
  abbrev pub OfUsbVolume : List ℕ → DevicePath → Type 0
  OfUsbVolume handles full =
      (handle : ℕ) × (before : History DevicePath) × (interface : ℕ) × Memᴰ handle handles
      × (fw.handle_protocol before device_path handle ≡ ok interface)
      × OfUsbPath (interface_of device_path handle ∷ before) interface full

  -- The two crates test for USB alike.
  same_test : (dp : DevicePath) → device_path_has_usb_node paths dp ≡ is_usb_device_path paths dp
  unfolding device_path_has_usb_node is_usb_device_path
  same_test dp = refl

  with_loader-Spans :
      (bytes : List ℕ) (full : DevicePath)
      → with_loader paths arch bytes ≡ some full
      → (size : ℕ) × Spans bytes size
        × (paths.of_bytes
              (take (size - 4) bytes ++ build_file_path_node (default_boot_file_path arch))
            ≡ some full)
  unfolding with_loader
  with_loader-Spans bytes full h = elim (Bool-cases (ltb (device_path_size bytes) 4)) [
    | inl short ↦
        let impossible : ◌≡◌ {A = Option DevicePath} none (some full) =
          rw (with_loader, short) at h in
        cc
    | inr long ↦
        let made : paths.of_bytes (
              take (device_path_size bytes - 4) bytes
              ++ build_file_path_node (default_boot_file_path arch))
            ≡ some full =
          rw (with_loader, long) at h in
        let size : device_path_size bytes ≢ 0 = λ z. absurd (ground arith) in
        let spans = (device_path_size_iff bytes (device_path_size bytes) size).0 refl in
        (device_path_size bytes, spans.0, made)
  ]

  usb_option-OnUsb :
      (path : Option DevicePath) (bytes : List ℕ) (full : DevicePath)
      → usb_option paths arch path bytes ≡ some full
      → (dp : DevicePath) × (path ≡ some dp)
        × OnUsb paths dp
        × (with_loader paths arch bytes ≡ some full)
  unfolding usb_option
  usb_option-OnUsb none bytes full h = cc
  usb_option-OnUsb (some dp) bytes full h = elim (Bool-cases (device_path_has_usb_node paths dp)) [
    | inl on ↦
        let loaded : with_loader paths arch bytes ≡ some full = rw (usb_option, on) at h in
        (dp, refl, (is_usb_device_path_iff paths dp).0 (sym (same_test dp) ∙ on), loaded)
    | inr off ↦
        let impossible : ◌≡◌ {A = Option DevicePath} none (some full) = rw (usb_option, off) at h in
        cc
  ]

  option_at-OfUsbPath :
      (h : History DevicePath) (interface : ℕ) (full : DevicePath)
      → option_at paths arch fw h interface ≡ some full
      → OfUsbPath h interface full
  unfolding option_at
  option_at-OfUsbPath h interface full e = elim (Bool-cases (interface == 0)) [
    | inl null ↦
        let impossible : ◌≡◌ {A = Option DevicePath} none (some full) = rw (option_at, null) at e in
        cc
    | inr there ↦
        let e' : usb_option paths arch (fw.path_at h interface) (fw.bytes_at h interface)
            ≡ some full =
          rw (option_at, there) at e in
        let (dp, path, on, loaded) = usb_option-OnUsb _ _ full e' in
        let (size, spans, made) = with_loader-Spans _ full loaded in
        (dp, size, (λ z. absurd (ground arith)), path, on, spans, made)
  ]

  widened :
      (handle : ℕ) (handles : List ℕ) (full : DevicePath)
      → OfUsbVolume handles full
      → OfUsbVolume (handle ∷ handles) full
  widened handle handles full (found, before, interface, at_one, opened, path) =
      (found, before, interface, Memᴰ.tail at_one, opened, path)

  first_usb-OfUsbVolume :
      (handles : List ℕ) (h : History DevicePath) (full : DevicePath)
      → (first_usb paths arch fw handles h).1 ≡ some full
      → OfUsbVolume handles full
  unfolding first_usb
  first_usb-OfUsbVolume [] h full e = cc
  first_usb-OfUsbVolume (handle ∷ handles) h full e =
      let asked = interface_of device_path handle ∷ h in
      elim (Result-cases (fw.handle_protocol h device_path handle)) [
        | inr (_, same) ↦
            let e' : (first_usb paths arch fw handles asked).1 ≡ some full =
              rw (first_usb, same) at e in
            widened handle handles full (first_usb-OfUsbVolume handles asked full e')
        | inl (interface, same) ↦ elim (Option-cases (option_at paths arch fw asked interface)) [
          | inl other ↦
              let e' : (first_usb paths arch fw handles asked).1 ≡ some full =
                rw (first_usb, same, other) at e in
              widened handle handles full (first_usb-OfUsbVolume handles asked full e')
          | inr (found, hit) ↦
              let e' : ◌≡◌ {A = Option DevicePath} (some found) (some full) =
                rw (first_usb, same, hit) at e in
              (
                handle,
                h,
                interface,
                Memᴰ.head refl,
                same,
                option_at-OfUsbPath asked interface full (hit ∙ e'),
              )
        ]
      ]

  -- A path that is found for the USB boot was made of the device path of one of the handles located by
  -- the SimpleFileSystem protocol, a path on USB whose bytes span a whole device path: all of it but
  -- its end, and the default loader of the architecture behind it.
  pub find_first_usb_sfs_device_path-OfUsbVolume :
      (h : History DevicePath) (full : DevicePath)
      → (find_first_usb_sfs_device_path paths arch fw h).1 ≡ some full
      → (handles : List ℕ) × (fw.locate_handle_buffer h (by_protocol simple_file_system)
          ≡ ok handles)
        × OfUsbVolume handles full
  unfolding find_first_usb_sfs_device_path
  find_first_usb_sfs_device_path-OfUsbVolume h full e =
      elim (Result-cases (fw.locate_handle_buffer h (by_protocol simple_file_system))) [
        | inr (_, same) ↦
            let impossible : ◌≡◌ {A = Option DevicePath} none (some full) =
              rw (find_first_usb_sfs_device_path, same) at e in
            cc
        | inl (handles, same) ↦
            let e' : (first_usb paths arch fw handles
                  (locate_handles (by_protocol simple_file_system) ∷ h)).1
                ≡ some full =
              rw (find_first_usb_sfs_device_path, same) at e in
            (handles, same, first_usb-OfUsbVolume handles _ full e')
      ]
