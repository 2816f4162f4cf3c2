-- ===== src/Script/Literal.antt =====
-- The literals of a script (ec/test-script/src/parser.rs): identifiers, bytes, timestamps, timers,
-- operands, ranges and durations.
pub mod Bytes
pub mod Timestamp
use mathlib.Core.Option
use odp_platform_common.Common.{
  ℕ, ◌+◌, ◌-◌, ◌*◌, ◌^◌, Bool, true, false, not, ◌&&◌, ◌||◌, List, [], ◌∷◌, Option, none, some,
  length, get_or, leb, ltb, ◌==◌, if◌then◌else◌,
}
use odp_platform_common.Common.Result.{Result, ok, err, ◌>>=◌, ok_or, map_err}
use odp_platform_common.Text.{
  Text, codes, is, is_empty, within, is_ascii_alphabetic, is_ascii_alphanumeric, all_chars, trim,
  trim_start, strip_prefix, strip_suffix, break, split_once_at, split_once, split,
}
use odp_platform_common.Script.Platform.{Platform}
use odp_platform_common.Script.Syntax.{
  Operand, num, bool, var, Message, buffer_syntax, buffer_size, buffer_bytes, milliseconds_range,
  invalid_timestamp, expected_byte, byte_range, unknown_timer, expected_operand, expected_number,
  expected_range, bad_duration, unknown_unit,
}

unfoldable pub is_ident : Text → Bool
unfolding is_ascii_alphabetic is_ascii_alphanumeric all_chars
is_ident [] = false
is_ident (c ∷ s) =
    (is_ascii_alphabetic c || c == b'_') && all_chars (λ d. is_ascii_alphanumeric d || d == b'_') s

-- `char::to_digit(16)` of a digit; 16 for any other character.
unfoldable pub digit_value : ℕ → ℕ
digit_value c =
    if within b'0' b'9' c
    then c - b'0'
    else if within b'a' b'f' c
    then c - b'a' + 10
    else if within b'A' b'F' c
    then c - b'A' + 10
    else 16

-- `char::is_digit`, for a radix of at most 16.
unfoldable pub is_digit : ℕ → ℕ → Bool
unfolding digit_value
is_digit radix c = ltb (digit_value c) radix

-- The value of a row of digits, most significant first.
unfoldable pub digits_from : ℕ → ℕ → Text → ℕ
unfolding digit_value
digits_from radix acc [] = acc
digits_from radix acc (c ∷ s) = digits_from radix (acc * radix + digit_value c) s

-- `from_str_radix` and `parse` of an unsigned integer type whose greatest value is `limit`.
unfoldable pub from_str_radix : ℕ → ℕ → Text → Option ℕ
unfolding digits_from is_digit all_chars strip_prefix
from_str_radix limit radix s =
    let digits = Option.get_or (strip_prefix (codes "+") s) s in
    if is_empty digits || not (all_chars (is_digit radix) digits)
    then none
    else if leb (digits_from radix 0 digits) limit
    then some (digits_from radix 0 digits)
    else none

module _ (P : Platform) where
  open P use {F, parse_f64, is_alphabetic, TimerId, ac_power, dc_power, Timestamp, try_from_bytes}

  abbrev pub radix_of : Text → Text × ℕ
  radix_of s = elim (strip_prefix (codes "0x") s) [
    | some hex ↦ (hex, 16)
    | none ↦ elim (strip_prefix (codes "0X") s) [ some hex ↦ (hex, 16) | none ↦ (s, 10) ]
  ]

  unfoldable pub parse_u8_literal : Text → Result ℕ (Message P)
  unfolding trim strip_prefix is_digit all_chars from_str_radix
  parse_u8_literal text =
      let s = trim text in
      let (digits, radix) = radix_of s in
      if is_empty digits || not (all_chars (is_digit radix) digits)
      then err (expected_byte s)
      else ok_or (from_str_radix 255 radix digits) (byte_range s)

  -- `map(parse_u8_literal).collect::<Result<Vec<_>, _>>()`.
  unfoldable pub parse_bytes : List Text → Result (List ℕ) (Message P)
  unfolding parse_u8_literal
  parse_bytes [] = ok []
  parse_bytes (s ∷ rest) = do b ← parse_u8_literal s; bs ← parse_bytes rest; ok (b ∷ bs)

  -- `u16::from_le_bytes([bytes[8], bytes[9]])`.
  abbrev pub milliseconds : List ℕ → ℕ
  milliseconds bytes = get_or bytes 8 0 + 256 * get_or bytes 9 0

  -- The size and the rest of `Buffer (<size>) <rest>`.
  unfoldable pub buffer_parts : Text → Option (Text × Text)
  unfolding strip_prefix trim_start split_once_at
  buffer_parts s =
      Option.bind
        (Option.bind (strip_prefix (codes "Buffer") s)
          (λ t. strip_prefix (codes "(") (trim_start t)))
        (split_once_at (λ c. c == b')'))

  unfoldable pub initializer_of : Text → Option Text
  unfolding strip_prefix strip_suffix trim
  initializer_of rest =
      Option.map trim
        (Option.bind (strip_prefix (codes "{") (trim rest)) (strip_suffix (codes "}")))

  -- The checks behind the bytes of the initializer.
  unfoldable pub decode_bytes : List ℕ → Result Timestamp (Message P)
  decode_bytes bytes =
      if not (length bytes == 16)
      then err (buffer_bytes (length bytes))
      else if ltb 999 (milliseconds bytes)
      then err (milliseconds_range (milliseconds bytes))
      else map_err invalid_timestamp (try_from_bytes bytes)

  unfoldable pub parse_timestamp_buffer : Text → Result Timestamp (Message P)
  unfolding buffer_parts initializer_of parse_u8_literal parse_bytes decode_bytes strip_suffix split
  parse_timestamp_buffer s = do
    (size_text, rest) ← ok_or (buffer_parts s) buffer_syntax
    size ← parse_u8_literal size_text
    if not (size == 16) then err buffer_size else do
      initializer ← ok_or (initializer_of rest) buffer_syntax
      bytes ←
          parse_bytes
            (split b',' (Option.get_or (strip_suffix (codes ",") initializer) initializer))
      decode_bytes bytes

  unfoldable pub parse_timer : Text → Result TimerId (Message P)
  parse_timer s =
      if is s "ac" then ok ac_power else if is s "dc" then ok dc_power else err (unknown_timer s)

  unfoldable pub parse_operand : Text → Result (Operand P) (Message P)
  unfolding trim is_ident
  parse_operand text =
      let s = trim text in
      if is s "true"
      then ok (bool true)
      else if is s "false"
      then ok (bool false)
      else elim (parse_f64 s) [
        | some n ↦ ok (num n)
        | none ↦ if is_ident s then ok (var s) else err (expected_operand s)
      ]

  unfoldable pub parse_num : Text → Result F (Message P)
  unfolding trim
  parse_num s = ok_or (parse_f64 (trim s)) (expected_number s)

  -- The two ends, and whether the upper one belongs to the range.
  unfoldable pub parse_range : Text → Result (F × F × Bool) (Message P)
  unfolding trim split_once parse_num
  parse_range text =
      let s = trim text in
      elim (split_once (codes "..=") s) [
        | some (lo_text, hi_text) ↦ do
          lo ← parse_num lo_text
          hi ← parse_num hi_text
          ok (lo, hi, true)
        | none ↦ elim (split_once (codes "..") s) [
          | some (lo_text, hi_text) ↦ do
            lo ← parse_num lo_text
            hi ← parse_num hi_text
            ok (lo, hi, false)
          | none ↦ err (expected_range s)
        ]
      ]

  abbrev pub unit_of : Text → Text
  unit_of [] = codes "ms"
  unit_of (c ∷ s) = c ∷ s

  unfoldable pub parse_duration : Text → Result ℕ (Message P)
  unfolding trim break from_str_radix
  parse_duration text =
      let s = trim text in
      let (num_part, unit) = break is_alphabetic s in
      do
        n ← ok_or (from_str_radix (2 ^ 64 - 1) 10 (trim num_part)) (bad_duration s)
        let u = trim (unit_of unit)
        if is u "ms"
            then ok (n * 1_000_000)
            else if is u "s"
            then ok (n * 1_000_000_000)
            else if is u "us"
            then ok (n * 1_000)
            else err (unknown_unit u)
