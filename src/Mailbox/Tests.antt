-- ===== src/Mailbox/Tests.antt =====
-- A concrete status word and response decoders, and the properties of the mailbox at them.
use odp_platform_common.Common.{
  ℕ, ◌/◌, ◌%◌, Bool, List, [], ◌∷◌, ◌++◌, some, take, ◌==◌, ◌≡◌, ◌↔◌, refl, arith,
}
use odp_platform_common.Common.Result.{ok}
use odp_platform_common.Mailbox.{
  UsbPd, normalize_acpi_response, validate, decode_capability, decode_connector_status,
}
use odp_platform_common.Mailbox.Decode.{
  Carries, Completed, field_at, payload_of, validate_iff, decode_iff,
}
use odp_platform_common.Mailbox.Envelope.{Envelope}

abbrev bit : ℕ → ℕ → Bool
bit cci place = cci / place % 2 == 1

abbrev usb : UsbPd
usb = record {
  error = λ cci. bit cci 0x40000000;
  not_supported = λ cci. bit cci 0x2000000;
  cmd_complete = λ cci. bit cci 0x80000000;
  data_len = λ cci. cci / 256 % 256;
  Capability = List ℕ;
  capability_len = 16;
  decode_capability = some;
  ConnectorCapability = ℕ;
  connector_capability_len = 2;
  connector_capability_of = λ word. word;
  ConnectorStatus = List ℕ;
  connector_status_len = 9;
  decode_connector_status = some;
}

abbrev sixteen : List ℕ
sixteen = 1 ∷ 2 ∷ 3 ∷ 4 ∷ 5 ∷ 6 ∷ 7 ∷ 8 ∷ 9 ∷ 10 ∷ 11 ∷ 12 ∷ 13 ∷ 14 ∷ 15 ∷ 16 ∷ []

-- A completed mailbox of UCSI 1.2 whose payload has `len` bytes.
abbrev mailbox : ℕ → List ℕ
mailbox len =
    0x20 ∷ 1 ∷ 0 ∷ 0 ∷ 0 ∷ len ∷ 0 ∷ 0x80 ∷ 0 ∷ 0 ∷ 0 ∷ 0 ∷ 0 ∷ 0 ∷ 0 ∷ 0 ∷ (sixteen ++ sixteen)

validate_iff_example : (validate usb (mailbox 16) ≡ ok (0x0120, 16)) ↔ (
    Completed usb (mailbox 16)
    × (field_at (mailbox 16) 0 2 ≡ 0x0120)
    × (usb.data_len (field_at (mailbox 16) 4 4) ≡ 16))
validate_iff_example = validate_iff usb (mailbox 16) 0x0120 16

decode_iff_example :
    ((decode_capability usb (mailbox 16) ≡ ok sixteen)
      ↔ (Carries usb 16 (mailbox 16) × (some (payload_of usb 16 (mailbox 16)) ≡ some sixteen)))
    × ((decode_connector_status usb (mailbox 16) ≡ ok sixteen)
        ↔ (Carries usb 9 (mailbox 16) × (some (payload_of usb 9 (mailbox 16)) ≡ some sixteen)))
decode_iff_example = decode_iff usb (mailbox 16) sixteen sixteen (omega arith) (omega arith)

-- An envelope with the status 5.
abbrev refused_envelope : Envelope
refused_envelope = record {
  status = 5 ∷ 0 ∷ 0 ∷ 0 ∷ 0 ∷ 0 ∷ 0 ∷ 0 ∷ [];
  before = take 24 (mailbox 0);
  mailbox = mailbox 16;
  behind = mailbox 0 ++ sixteen;
  status_sized = refl;
  before_sized = refl;
  mailbox_sized = refl;
  behind_sized = refl;
}

normalized : normalize_acpi_response (mailbox 2) ≡ ok (mailbox 2)
unfolding normalize_acpi_response
normalized = refl
