-- ===== src/Boot/LoadOption.antt =====
-- `EFI_LOAD_OPTION` and its device path (uefi/crates/patina_boot/src/helpers.rs). A buffer is the list
-- of its bytes.
pub mod Layout
use odp_platform_common.Common.{
  ℕ, zero, suc, ◌+◌, ◌*◌, bit_and, Bool, true, false, not, ◌&&◌, Option, none, some, List, [], ◌∷◌,
  length, get_or, take, drop, ltb, ◌==◌, if◌then◌else◌,
}
use odp_platform_common.Recovery.DevicePath.{node_length, is_end_entire}
use odp_platform_common.Boot.Paths.{Paths}

abbrev pub node_header_size : ℕ
node_header_size = 4

-- The loop from a position on, which is what the buffer holds from there. A node has at least the
-- four bytes of its header, so the length of the buffer is fuel enough.
unfoldable pub validate_from : ℕ → List ℕ → Bool
validate_from zero buffer = false
validate_from (suc fuel) buffer = elim (ltb (length buffer) node_header_size) [
  | true ↦ false
  | false ↦ elim (ltb (node_length buffer) node_header_size) [
    | true ↦ false
    | false ↦ elim (ltb (length buffer) (node_length buffer)) [
      | true ↦ false
      | false ↦ elim (is_end_entire buffer) [
        | true ↦ true
        | false ↦ validate_from fuel (drop (node_length buffer) buffer)
      ]
    ]
  ]
]

unfoldable pub validate_device_path_nodes : List ℕ → Bool
unfolding validate_from
validate_device_path_nodes buffer = validate_from (suc (length buffer)) buffer

-- What follows the null-terminated description.
unfoldable pub skip_description : List ℕ → Option (List ℕ)
skip_description [] = none
skip_description (byte ∷ []) = none
skip_description (low ∷ high ∷ rest) = elim (low + 256 * high == 0) [
  | true ↦ some rest
  | false ↦ skip_description rest
]

abbrev pub load_option_active : ℕ
load_option_active = 0x00000001

module _ {Node DevicePath : Type 0} (paths : Paths Node DevicePath) where
  -- The file path list, behind the description.
  unfoldable pub parse_file_path : ℕ → List ℕ → Option DevicePath
  unfolding validate_device_path_nodes
  parse_file_path list_length rest =
      if ltb (length rest) list_length
      then none
      else if not (validate_device_path_nodes (take list_length rest))
      then none
      else paths.of_bytes (take list_length rest)

  -- The body of an option, if it is active, from where its description ends.
  unfoldable pub parse_body : Bool → ℕ → Option (List ℕ) → Option DevicePath
  unfolding parse_file_path
  parse_body false list_length skipped = none
  parse_body true list_length none = none
  parse_body true list_length (some rest) = parse_file_path list_length rest

  unfoldable pub parse_load_option : List ℕ → Option DevicePath
  unfolding skip_description parse_body
  parse_load_option (a ∷ b ∷ c ∷ d ∷ e ∷ f ∷ rest) =
      let attributes = a + 256 * b + 65536 * c + 16777216 * d in
      let file_path_list_length = e + 256 * f in
      parse_body (not (bit_and attributes load_option_active == 0)) file_path_list_length
        (skip_description rest)
  parse_load_option _ = none
