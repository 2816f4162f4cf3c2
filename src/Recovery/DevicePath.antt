-- ===== src/Recovery/DevicePath.antt =====
-- The walk over a device path and the file path node (uefi/crates/patina_sre/src/bp_recovery.rs).
-- A device path is the bytes from its pointer on; a node's header is its type, its subtype and its
-- length, in two little-endian bytes.
pub mod Walk
use odp_platform_common.Common.{
  ℕ, zero, suc, ◌+◌, ◌-◌, ◌*◌, ◌/◌, ◌%◌, ◌^◌, Bool, true, false, not, ◌&&◌, List, [], ◌∷◌, ◌++◌,
  length, get_or, drop, ltb, ◌==◌, if◌then◌else◌,
}

abbrev pub device_path_max_bytes : ℕ
device_path_max_bytes = 64 * 1024

abbrev pub node_hdr_bytes : ℕ
node_hdr_bytes = 4

abbrev pub node_length : List ℕ → ℕ
node_length dp = get_or dp 2 0 + 256 * get_or dp 3 0

abbrev pub is_end_entire : List ℕ → Bool
is_end_entire dp = get_or dp 0 0 == 0x7f && get_or dp 1 0 == 0xff

-- The loop from a node on, with the bytes consumed before it. A node has at least the four bytes of
-- its header, so the cap is fuel enough.
unfoldable pub walk : ℕ → ℕ → List ℕ → ℕ
walk zero consumed dp = 0
walk (suc fuel) consumed dp = elim (ltb (device_path_max_bytes - node_hdr_bytes) consumed) [
  | true ↦ 0
  | false ↦ elim (ltb (node_length dp) node_hdr_bytes) [
    | true ↦ 0
    | false ↦ elim (is_end_entire dp && not (node_length dp == node_hdr_bytes)) [
      | true ↦ 0
      | false ↦ elim (ltb device_path_max_bytes (consumed + node_length dp)) [
        | true ↦ 0
        | false ↦ elim (is_end_entire dp) [
          | true ↦ consumed + node_length dp
          | false ↦ walk fuel (consumed + node_length dp) (drop (node_length dp) dp)
        ]
      ]
    ]
  ]
]

unfoldable pub device_path_size : List ℕ → ℕ
unfolding walk
device_path_size dp = walk device_path_max_bytes 0 dp

-- `encode_node_header` of a type, a subtype and a length of two bytes.
unfoldable pub encode_node_header : ℕ → ℕ → ℕ → List ℕ
encode_node_header kind subkind len = kind ∷ subkind ∷ len % 256 ∷ len / 256 % 256 ∷ []

-- `to_le_bytes` of each code unit.
unfoldable pub unit_bytes : List ℕ → List ℕ
unit_bytes [] = []
unit_bytes (u ∷ units) = u % 256 ∷ u / 256 % 256 ∷ unit_bytes units

abbrev pub end_hdr : List ℕ
end_hdr = 0x7f ∷ 0xff ∷ 4 ∷ 0 ∷ []

-- The path is its UTF-16 code units, which the source gets from `encode_utf16`.
unfoldable pub build_file_path_node : List ℕ → List ℕ
unfolding encode_node_header unit_bytes
build_file_path_node path =
    let utf16 = path ++ 0 ∷ [] in
    let node_len = node_hdr_bytes + length utf16 * 2 in
    if ltb 0xffff node_len
    then encode_node_header 0x7f 0xff 4
    else encode_node_header 0x04 0x04 node_len
      ++ (unit_bytes utf16 ++ encode_node_header 0x7f 0xff 4)
