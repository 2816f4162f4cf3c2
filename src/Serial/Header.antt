-- ===== src/Serial/Header.antt =====
-- The four bytes in front of each ODP body (ec/test-lib/src/serial.rs).
use odp_platform_common.Common.{
  ℕ, suc, ◌+◌, ◌*◌, ◌/◌, ◌%◌, ◌^◌, ◌<◌, ◌≤◌, bit_and, bit_or, Bool, true, false, not, List, [], ◌∷◌,
  ◌++◌, length, get_or, ltb, ◌==◌, if◌then◌else◌, ◌≡◌, refl, ap, ◌∙◌, arith, bit_or-disjoint,
  bit_and-low, bit_and-bit,
}
use odp_platform_common.Common.Result.{Result, ok, err}
use odp_platform_common.Serial.Port.{Error, header_too_short}

-- `u32::to_be_bytes` and `u32::from_be_bytes`.
unfoldable pub to_be_bytes : ℕ → List ℕ
to_be_bytes n = n / 2 ^ 24 % 256 ∷ n / 2 ^ 16 % 256 ∷ n / 2 ^ 8 % 256 ∷ n % 256 ∷ []

unfoldable pub from_be_bytes : ℕ → ℕ → ℕ → ℕ → ℕ
from_be_bytes a b c d = a * 2 ^ 24 + b * 2 ^ 16 + c * 2 ^ 8 + d

-- What a header says.
pub record OdpHeader : Type 0 where
  pub is_request : Bool
  pub service_id : ℕ
  pub is_error : Bool
  pub message_id : ℕ

abbrev pub header_word : Bool → ℕ → ℕ → ℕ
header_word is_request service_id message_id =
    let raw = if is_request then bit_or 0 (2 ^ 25) else 0 in
    bit_or (bit_or raw (service_id * 2 ^ 16 % 2 ^ 32)) (bit_and message_id 0x7fff)

unfoldable pub build_odp_header : Bool → ℕ → ℕ → List ℕ
unfolding to_be_bytes
build_odp_header is_request service_id message_id =
    to_be_bytes (header_word is_request service_id message_id)

abbrev pub fields_of : ℕ → OdpHeader
fields_of raw = record {
  is_request = not (bit_and raw (2 ^ 25) == 0);
  service_id = bit_and (raw / 2 ^ 16) 0xff;
  is_error = not (bit_and raw (2 ^ 15) == 0);
  message_id = bit_and raw 0x7fff;
}

unfoldable pub parse_odp_header : List ℕ → Result OdpHeader Error
unfolding from_be_bytes
parse_odp_header bytes =
    if ltb (length bytes) 4
    then err header_too_short
    else ok (
        fields_of (
          from_be_bytes (get_or bytes 0 0) (get_or bytes 1 0) (get_or bytes 2 0)
            (get_or bytes 3 0)))

abbrev request_bit : Bool → ℕ
request_bit true = 1
request_bit false = 0

low_bits : (n : ℕ) → bit_and n 0x7fff ≡ n % 2 ^ 15
low_bits n = bit_and-low 15 (n / 2 ^ 15) (n % 2 ^ 15) n (omega arith) (omega arith)

first_or :
    (r : Bool) (s : ℕ)
    → s < 256
    → bit_or (if r then bit_or 0 (2 ^ 25) else 0) (s * 2 ^ 16) ≡ request_bit r * 2 ^ 25 + s * 2 ^ 16
first_or true s h = bit_or-disjoint 25 1 (2 ^ 25) (s * 2 ^ 16) refl (omega arith)
first_or false s h = bit_or-disjoint 25 0 0 (s * 2 ^ 16) refl (omega arith)

header_word_lem :
    (r : Bool) (s m : ℕ)
    → s < 256
    → header_word r s m ≡ request_bit r * 2 ^ 25 + s * 2 ^ 16 + m % 2 ^ 15
header_word_lem r s m h =
    let shifted : s * 2 ^ 16 % 2 ^ 32 ≡ s * 2 ^ 16 = omega arith in
    rw (low_bits m, shifted, first_or r s h)
      (bit_or-disjoint 16 (request_bit r * 512 + s) (request_bit r * 2 ^ 25 + s * 2 ^ 16)
        (m % 2 ^ 15) (omega arith) (omega arith))

request_bit_small : (r : Bool) → request_bit r ≤ 1
request_bit_small true = omega arith
request_bit_small false = omega arith

is_set :
    (r : Bool) (s m : ℕ)
    → ◌≡◌ {A = OdpHeader}
        (record {
          is_request = not (request_bit r % 2 * 2 ^ 25 == 0);
          service_id = s;
          is_error = not (0 == 0);
          message_id = m;
        })
        (record { is_request = r; service_id = s; is_error = false; message_id = m })
is_set true s m = refl
is_set false s m = refl

fields_of-header_word :
    (r : Bool) (s m : ℕ)
    → s < 256
    → fields_of (request_bit r * 2 ^ 25 + s * 2 ^ 16 + m % 2 ^ 15)
      ≡ record { is_request = r; service_id = s; is_error = false; message_id = m % 2 ^ 15 }
fields_of-header_word r s m h =
    let w = request_bit r * 2 ^ 25 + s * 2 ^ 16 + m % 2 ^ 15 in
    let high : bit_and w (2 ^ 25) ≡ request_bit r % 2 * 2 ^ 25 =
      bit_and-bit 25 (request_bit r) (s * 2 ^ 16 + m % 2 ^ 15) w (omega arith) (omega arith) in
    let middle : bit_and (w / 2 ^ 16) 0xff ≡ s =
      bit_and-low 8 (request_bit r * 2) s (w / 2 ^ 16) (omega arith) (omega arith) in
    let error : bit_and w (2 ^ 15) ≡ 0 =
      bit_and-bit 15 (request_bit r * 2 ^ 10 + s * 2) (m % 2 ^ 15) w (omega arith) (omega arith)
      ∙ omega arith in
    let low : bit_and w 0x7fff ≡ m % 2 ^ 15 = low_bits w ∙ omega arith in
    rw (high, middle, error, low) (is_set r s (m % 2 ^ 15))

bytes_lem :
    (n : ℕ)
    → n < 2 ^ 32
    → from_be_bytes (n / 2 ^ 24 % 256) (n / 2 ^ 16 % 256) (n / 2 ^ 8 % 256) (n % 256) ≡ n
unfolding from_be_bytes
bytes_lem n h = omega arith

-- A header in front of any payload is read back as it was built, for a service of one byte: never
-- as an error, and with the low fifteen bits of the message's number.
pub parse_odp_header-build_odp_header :
    (is_request : Bool) (service_id message_id : ℕ) (payload : List ℕ)
    → service_id < 256
    → parse_odp_header (build_odp_header is_request service_id message_id ++ payload)
      ≡ ok (record {
        is_request = is_request;
        service_id = service_id;
        is_error = false;
        message_id = message_id % 2 ^ 15;
      })
unfolding parse_odp_header build_odp_header to_be_bytes
parse_odp_header-build_odp_header r s m payload h =
    let whole = header_word_lem r s m h in
    let long : ltb (suc (suc (suc (suc (length payload))))) 4 ≡ false = ground arith in
    rw long (
      ap ok (
        ap fields_of
          (bytes_lem (header_word r s m) (omega (arith, whole, request_bit_small r)) ∙ whole)
        ∙ fields_of-header_word r s m h))
