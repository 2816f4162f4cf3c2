-- ===== src/Recovery/Nvme.antt =====
-- Get Log Page and Identify commands (uefi/crates/patina_sre/src/bp_recovery.rs).
pub mod Reads
use odp_platform_common.Common.{
  ℕ, zero, suc, ◌+◌, ◌-◌, ◌*◌, ◌/◌, ◌%◌, ◌^◌, min, bit_and, bit_or, Bool, true, false, not, ◌||◌,
  List, [], ◌∷◌, ◌++◌, Option, none, some, length, get_or, take, ltb, leb, ◌==◌, if◌then◌else◌,
}
use odp_platform_common.Common.Result.{Result, ok, err, map_err}
use odp_platform_common.Common.Action.{Action, ◌>>=◌, lift}

-- The fields of a command that are set, with the bytes of its transfer buffer.
pub record Command : Type 0 where
  pub cdw0 : ℕ
  pub cdw10 : ℕ
  pub cdw11 : ℕ
  pub cdw12 : ℕ
  pub cdw13 : ℕ
  pub flags : ℕ
  pub transfer_length : ℕ

pub data Fault : Type 0 where
  invalid_parameter : Fault
  status : ℕ → Fault

-- `EFI_NVM_EXPRESS_PASS_THRU_PROTOCOL`: a command's transferred bytes, or its status.
pub record PassThru : Type 1 where
  pub St : Type 0
  pub pass_thru : Command → St → St × Result (List ℕ) ℕ

abbrev pub read_chunk_min : ℕ
read_chunk_min = 64 * 1024

abbrev pub read_chunk_max : ℕ
read_chunk_max = 512 * 1024

abbrev pub read_chunk_default : ℕ
read_chunk_default = 64 * 1024

-- `Ord::clamp`.
unfoldable pub clamp : ℕ → ℕ → ℕ → ℕ
clamp n lo hi = if ltb n lo then lo else if ltb hi n then hi else n

-- `1usize.checked_shl(mdts).and_then(|pages| pages.checked_mul(4096))` on 64 bits.
unfoldable pub checked_transfer : ℕ → Option ℕ
checked_transfer mdts =
    if leb 64 mdts
    then none
    else if ltb (2 ^ mdts * 4096) (2 ^ 64)
    then some (2 ^ mdts * 4096)
    else none

unfoldable pub chunk_of_mdts : ℕ → ℕ
unfolding clamp checked_transfer
chunk_of_mdts mdts = if mdts == 0 then read_chunk_max else elim (checked_transfer mdts) [
  | some max_transfer ↦ clamp max_transfer read_chunk_min read_chunk_max
  | none ↦ clamp read_chunk_max read_chunk_min read_chunk_max
]

unfoldable pub identify_command : Command
identify_command = record {
  cdw0 = 0x06;
  cdw10 = 1;
  cdw11 = 0;
  cdw12 = 0;
  cdw13 = 0;
  flags = 2 ^ 2;
  transfer_length = 4096;
}

unfoldable pub probe_result : Result (List ℕ) ℕ → ℕ
unfolding chunk_of_mdts
probe_result (err e) = read_chunk_default
probe_result (ok buf) = chunk_of_mdts (get_or buf 77 0)

module _ (P : PassThru) where
  unfoldable pub probe_max_transfer : P.St → P.St × ℕ
  unfolding probe_result identify_command
  probe_max_transfer st = let (t, r) = P.pass_thru identify_command st in (t, probe_result r)

-- The command that reads `read_bytes` of the partition from an offset.
unfoldable pub log_page_command : ℕ → ℕ → ℕ → Command
log_page_command bp_id bp_off read_bytes =
    let lpol = 16 + bp_off in
    let numd = (read_bytes / 4 - 1) % 2 ^ 32 in
    record {
      cdw0 = 0x02;
      cdw10 =
          bit_or (bit_or (bit_and numd 0xffff * 2 ^ 16 % 2 ^ 32) (bit_and bp_id 0x7f * 2 ^ 8)) 0x15;
      cdw11 = bit_and (numd / 2 ^ 16) 0xffff;
      cdw12 = bit_and lpol 0xffffffff;
      cdw13 = bit_and (lpol / 2 ^ 32) 0xffffffff;
      flags = bit_or (bit_or (bit_or (2 ^ 2) (2 ^ 3)) (2 ^ 4)) (2 ^ 5);
      transfer_length = read_bytes % 2 ^ 32;
    }

module _ (P : PassThru) where
  open P use {St}

  -- One command, with its failed status as the error.
  unfoldable pub transfer : Command → Action St Fault (List ℕ)
  transfer c st = let (t, r) = P.pass_thru c st in (t, map_err status r)

  -- The `while` loop, with the bytes of the destination that are still to be read. The fuel is the
  -- destination's length.
  unfoldable pub read_chunks : ℕ → ℕ → ℕ → ℕ → ℕ → Action St Fault (List ℕ)
  unfolding transfer log_page_command
  read_chunks zero bp_id chunk_bytes bp_off remaining = lift (ok [])
  read_chunks (suc fuel) bp_id chunk_bytes bp_off remaining = elim (remaining == 0) [
    | true ↦ lift (ok [])
    | false ↦
        let size = min chunk_bytes remaining in
        do
          bytes ← transfer (log_page_command bp_id bp_off size)
          more ← read_chunks fuel bp_id chunk_bytes (bp_off + size) (remaining - size)
          lift (ok (bytes ++ more))
  ]

  -- The bytes that land in a destination of this length.
  unfoldable pub read_bp_via_log_page : ℕ → ℕ → ℕ → Action St Fault (List ℕ)
  unfolding read_chunks
  read_bp_via_log_page bp_id chunk_bytes dest_len st =
      if ltb chunk_bytes 4 || not (chunk_bytes % 4 == 0) || not (dest_len % 4 == 0)
      then (st, err invalid_parameter)
      else read_chunks dest_len bp_id chunk_bytes 0 dest_len st

  unfoldable pub is_fat : Result (List ℕ) Fault → Bool
  is_fat (err e) = false
  is_fat (ok head) = if get_or head 510 0 == 0x55 then get_or head 511 0 == 0xaa else false

  -- `bp_has_sre_payload` behind the search for the protocol.
  unfoldable pub head_is_fat : P.St → P.St × Bool
  unfolding read_bp_via_log_page is_fat
  head_is_fat st = let (t, r) = read_bp_via_log_page 1 512 512 st in (t, is_fat r)
