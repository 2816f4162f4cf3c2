-- ===== src/Recovery/Disk.antt =====
-- The RAM disk's block protocol (uefi/crates/patina_sre/src/bp_recovery.rs).
use odp_platform_common.Common.{
  ℕ, ◌+◌, ◌-◌, ◌*◌, ◌%◌, ◌^◌, ◌≤◌, ◌<◌, Bool, true, false, not, List, length, take, drop, ltb, ◌==◌,
  if◌then◌else◌, ◌≡◌, ◌↔◌, sym, ap, ◌∙◌, ==_iff, arith,
}
use odp_platform_common.Common.Result.{Result, ok, err, check-ok, refuse-ok, ok-injective}

pub data Status : Type 0 where
  invalid_parameter media_changed bad_buffer_size write_protected : Status

-- `buffer_size` of the source is the length of the backing buffer.
pub record RamDisk : Type 0 where
  pub media_id : ℕ
  pub block_size : ℕ
  pub buffer : List ℕ

-- On 64 bits.
abbrev pub saturated : ℕ → ℕ
saturated n = if ltb n (2 ^ 64) then n else 2 ^ 64 - 1

unfoldable pub saturating_mul : ℕ → ℕ → ℕ
saturating_mul a b = saturated (a * b)

unfoldable pub saturating_add : ℕ → ℕ → ℕ
saturating_add a b = saturated (a + b)

-- The bytes copied to the caller's buffer. `nulls` says that one of the two pointers is null.
unfoldable pub ram_disk_read_blocks : RamDisk → Bool → ℕ → ℕ → ℕ → Result (List ℕ) Status
unfolding saturating_mul saturating_add
ram_disk_read_blocks d nulls media_id lba buffer_size =
    if nulls
    then err invalid_parameter
    else if not (media_id == d.media_id)
    then err media_changed
    else let offset = saturating_mul lba d.block_size in
      let end = saturating_add offset buffer_size in
      if ltb (length d.buffer) end
      then err invalid_parameter
      else if not (buffer_size % d.block_size == 0)
      then err bad_buffer_size
      else ok (take buffer_size (drop offset d.buffer))

unfoldable pub ram_disk_write_blocks : Result (Unit {0}) Status
ram_disk_write_blocks = err write_protected

saturated-le :
    (p n limit : ℕ)
    → limit < 2 ^ 64 - 1
    → saturated (saturated p + n) ≤ limit
    → (p + n ≤ limit) × (saturated p ≡ p)
saturated-le p n limit small h = (ground arith, ground arith)

saturated-lt : (p : ℕ) → p < 2 ^ 64 → saturated p ≡ p
saturated-lt p h = ground arith

-- A read succeeds exactly when no pointer is null, the medium is the current one, the size is whole
-- blocks and the blocks lie in the buffer; it returns those bytes, and no overflow hides a block
-- behind the end: the buffer is below the last of 64 bits.
pub ram_disk_read_blocks_iff :
    (d : RamDisk) (nulls : Bool) (media_id lba buffer_size : ℕ) (bytes : List ℕ)
    → length d.buffer < 2 ^ 64 - 1
    → (ram_disk_read_blocks d nulls media_id lba buffer_size ≡ ok bytes) ↔ (
        (nulls ≡ false)
        × (media_id ≡ d.media_id)
        × (lba * d.block_size + buffer_size ≤ length d.buffer)
        × (buffer_size % d.block_size ≡ 0)
        × (take buffer_size (drop (lba * d.block_size) d.buffer) ≡ bytes))
unfolding ram_disk_read_blocks saturating_mul saturating_add
ram_disk_read_blocks_iff d nulls media_id lba buffer_size bytes small = (
  λ h.
      let (valid, h1) = refuse-ok nulls _ _ h in
      let (same, h2) = check-ok (media_id == d.media_id) _ _ h1 in
      let (fits, h3) = refuse-ok (ltb (length d.buffer) _) _ _ h2 in
      let (whole, read) = check-ok (buffer_size % d.block_size == 0) _ _ h3 in
      let (inside, at) =
        saturated-le (lba * d.block_size) buffer_size (length d.buffer) small (ground arith) in
      (
        valid,
        (==_iff _ _).0 same,
        inside,
        (==_iff _ _).0 whole,
        ok-injective (ap (λ o. ok (take buffer_size (drop o d.buffer))) (sym at) ∙ read),
      ),
  λ h.
      let (valid, same, inside, whole, read) = h in
      let at = saturated-lt (lba * d.block_size) (omega arith) in
      let end = saturated-lt (lba * d.block_size + buffer_size) (omega arith) in
      let known : (media_id == d.media_id) ≡ true = (==_iff _ _).1 same in
      let blocks : (buffer_size % d.block_size == 0) ≡ true = (==_iff _ _).1 whole in
      let fits : ltb (length d.buffer) (lba * d.block_size + buffer_size) ≡ false = ground arith in
      rw (valid, known, at, end, fits, blocks) (ap ok read),
)
