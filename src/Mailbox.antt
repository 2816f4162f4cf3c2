-- ===== src/Mailbox.antt =====
-- The 48-byte UCSI mailbox (ec/test-lib/src/ucsi.rs).
pub mod Envelope
pub mod Decode
pub mod Tests
use odp_platform_common.Common.{
  ℕ, ◌+◌, ◌*◌, ◌^◌, Bool, not, List, [], ◌∷◌, Option, length, get_or, take, drop, ltb, ◌==◌,
  if◌then◌else◌,
}
use odp_platform_common.Common.Result.{Result, ok, err, ◌>>=◌, ok_or}

-- The constructor `panic` stands for a slice or an index out of range.
pub data MailboxError : Type 0 where
  wrong_length : ℕ → MailboxError
  ffa_status : ℕ → MailboxError
  unsupported_version : ℕ → MailboxError
  not_complete command_error not_supported : MailboxError
  -- The expected and the actual length.
  unexpected_data_len : ℕ → ℕ → MailboxError
  payload_decode : MailboxError
  panic : MailboxError

pub data ErrorKind : Type 0 where
  io invalid_data : ErrorKind

unfoldable pub kind : MailboxError → ErrorKind
kind (ffa_status s) = io
kind _ = invalid_data

-- The types of the crate embedded_usb_pd: the status word, and the three responses with their
-- lengths and decoders.
pub record UsbPd : Type 1 where
  pub error : ℕ → Bool
  pub not_supported : ℕ → Bool
  pub cmd_complete : ℕ → Bool
  pub data_len : ℕ → ℕ
  pub Capability : Type 0
  pub capability_len : ℕ
  pub decode_capability : List ℕ → Option Capability
  pub ConnectorCapability : Type 0
  pub connector_capability_len : ℕ
  pub connector_capability_of : ℕ → ConnectorCapability
  pub ConnectorStatus : Type 0
  pub connector_status_len : ℕ
  pub decode_connector_status : List ℕ → Option ConnectorStatus

-- `from_le_bytes` of any width.
unfoldable pub from_le_bytes : List ℕ → ℕ
from_le_bytes [] = 0
from_le_bytes (b ∷ bytes) = b + 256 * from_le_bytes bytes

-- `&bytes[start..start + len]`.
unfoldable pub slice : List ℕ → ℕ → ℕ → Result (List ℕ) MailboxError
slice bytes start len =
    if ltb (length bytes) (start + len) then err panic else ok (take len (drop start bytes))

abbrev pub mailbox_len : ℕ
mailbox_len = 48

abbrev pub ffa_envelope_len : ℕ
ffa_envelope_len = 144

unfoldable pub control : ℕ → ℕ → List ℕ
control command connector = command ∷ 0 ∷ connector ∷ 0 ∷ 0 ∷ 0 ∷ 0 ∷ 0 ∷ []

unfoldable pub normalize_acpi_response : List ℕ → Result (List ℕ) MailboxError
unfolding from_le_bytes slice
normalize_acpi_response bytes =
    if length bytes == mailbox_len
    then ok bytes
    else if length bytes == ffa_envelope_len
    then (do
      status_bytes ← slice bytes 0 8
      if not (from_le_bytes status_bytes == 0)
          then err (ffa_status (from_le_bytes status_bytes))
          else slice bytes 32 mailbox_len)
    else err (wrong_length (length bytes))

module _ (U : UsbPd) where
  -- The tests of the status word.
  unfoldable pub check_cci : ℕ → ℕ → Result (ℕ × ℕ) MailboxError
  check_cci version cci =
      if U.error cci
      then err command_error
      else if U.not_supported cci
      then err not_supported
      else if not (U.cmd_complete cci)
      then err not_complete
      else ok (version, U.data_len cci)

  unfoldable pub validate : List ℕ → Result (ℕ × ℕ) MailboxError
  unfolding from_le_bytes slice check_cci
  validate bytes =
      if not (length bytes == mailbox_len) then err (wrong_length (length bytes)) else do
        version ← slice bytes 0 2
        cci ← slice bytes 4 4
        check_cci (from_le_bytes version) (from_le_bytes cci)

  unfoldable pub message_in : List ℕ → ℕ → Result (List ℕ) MailboxError
  unfolding validate slice
  message_in bytes expected = do
    (version, actual) ← validate bytes
    if not (version == 0x0120)
        then err (unsupported_version version)
        else if not (actual == expected)
        then err (unexpected_data_len expected actual)
        else slice bytes 16 expected

  unfoldable pub decode_version : List ℕ → Result ℕ MailboxError
  unfolding validate
  decode_version bytes = do (version, actual) ← validate bytes; ok version

  unfoldable pub decode_capability : List ℕ → Result U.Capability MailboxError
  unfolding message_in
  decode_capability bytes = do
    payload ← message_in bytes U.capability_len
    ok_or (U.decode_capability payload) payload_decode

  -- `payload[0]` and `payload[1]` are the first two bytes.
  unfoldable pub decode_connector_capability : List ℕ → Result U.ConnectorCapability MailboxError
  unfolding message_in slice from_le_bytes
  decode_connector_capability bytes = do
    payload ← message_in bytes U.connector_capability_len
    word ← slice payload 0 2
    ok (U.connector_capability_of (from_le_bytes word))

  unfoldable pub decode_connector_status : List ℕ → Result U.ConnectorStatus MailboxError
  unfolding message_in
  decode_connector_status bytes = do
    payload ← message_in bytes U.connector_status_len
    ok_or (U.decode_connector_status payload) payload_decode
