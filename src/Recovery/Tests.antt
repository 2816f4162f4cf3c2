-- ===== src/Recovery/Tests.antt =====
-- A concrete controller, RAM disk and paths, and the properties of the recovery path at them.
use odp_platform_common.Common.{
  ℕ, ◌*◌, ◌%◌, ◌≤◌, false, List, [], ◌∷◌, ◌++◌, length, take, drop, ◌≡◌, ◌↔◌, refl, sym, ap, arith,
}
use odp_platform_common.Common.Result.{ok, ok-injective}
use odp_platform_common.Recovery.Nvme.{PassThru, read_bp_via_log_page, probe_max_transfer}
use odp_platform_common.Recovery.Nvme.Reads.{
  asked_bytes, asked_offset, Serves, read_bp_via_log_page-image, probe_max_transfer-bounds,
}
use odp_platform_common.Recovery.Disk.{RamDisk, ram_disk_read_blocks, ram_disk_read_blocks_iff}
use odp_platform_common.Recovery.DevicePath.{device_path_size, build_file_path_node}
use odp_platform_common.Recovery.DevicePath.Walk.{
  Spans, device_path_size_iff, device_path_size-build_file_path_node,
}

abbrev header : List ℕ
header = 0x15 ∷ 0 ∷ 0 ∷ 0 ∷ 0 ∷ 0 ∷ 0 ∷ 0 ∷ 0 ∷ 0 ∷ 0 ∷ 0 ∷ 0 ∷ 0 ∷ 0 ∷ 0 ∷ []

abbrev image : List ℕ
image = 1 ∷ 2 ∷ 3 ∷ 4 ∷ 5 ∷ 6 ∷ 7 ∷ 8 ∷ 9 ∷ 10 ∷ 11 ∷ 12 ∷ 13 ∷ []

-- The log page of every partition is the image.
abbrev controller : PassThru
controller = record {
  St = Unit;
  pass_thru = λ c st. (st, ok (take (asked_bytes c) (drop (asked_offset c) (header ++ image))));
}

controller-Serves : Serves controller 1 header image
controller-Serves c s t bytes page part e = sym (ok-injective (ap (λ r. r.1) e))

-- Twelve bytes in chunks of eight.
read_twelve : read_bp_via_log_page controller 1 8 12 tt ≡ (tt, ok (take 12 image))
unfolding read_bp_via_log_page
read_twelve = refl

read_bp_via_log_page-image_example : take 12 image ≡ take 12 image
read_bp_via_log_page-image_example =
    read_bp_via_log_page-image controller 1 header image controller-Serves refl 8 12 tt tt
      (omega arith) (omega arith) read_twelve

probe_max_transfer-bounds_example :
    (64 * 1024 ≤ (probe_max_transfer controller tt).1)
    × ((probe_max_transfer controller tt).1 ≤ 512 * 1024)
    × ((probe_max_transfer controller tt).1 % 4 ≡ 0)
probe_max_transfer-bounds_example = probe_max_transfer-bounds controller tt

abbrev disk : RamDisk
disk = record { media_id = 7; block_size = 4; buffer = image }

ram_disk_read_blocks_iff_example :
    (ram_disk_read_blocks disk false 7 1 8 ≡ ok (take 8 (drop 4 image))) ↔ (
      (false ≡ false)
      × (disk.media_id ≡ 7)
      × (12 ≤ 13)
      × (8 % disk.block_size ≡ 0)
      × (take 8 (drop 4 image) ≡ take 8 (drop 4 image)))
ram_disk_read_blocks_iff_example =
    ram_disk_read_blocks_iff disk false 7 1 8 (take 8 (drop 4 image)) (omega arith)

-- A node of six bytes and the end.
abbrev two_nodes : List ℕ
two_nodes = 1 ∷ 1 ∷ 6 ∷ 0 ∷ 9 ∷ 9 ∷ 0x7f ∷ 0xff ∷ 4 ∷ 0 ∷ []

device_path_size_iff_example :
    (device_path_size two_nodes ≡ 10) ↔ (Spans two_nodes 10 × (10 ≤ 64 * 1024))
device_path_size_iff_example = device_path_size_iff two_nodes 10 (λ h. absurd (omega arith))

device_path_size-build_file_path_node_example :
    device_path_size (build_file_path_node (0x5c ∷ 0x61 ∷ []))
    ≡ length (build_file_path_node (0x5c ∷ 0x61 ∷ []))
device_path_size-build_file_path_node_example =
    device_path_size-build_file_path_node (0x5c ∷ 0x61 ∷ []) (λ h. absurd (omega arith))
