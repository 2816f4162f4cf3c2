-- ===== src/Script/Literal/Bytes.antt =====
-- Byte literals and the `Buffer(16) { … }` form of a timestamp.
use native.Mathlib.Nat.{pow-suc, pow-zero}
use odp_platform_common.Common.{
  ℕ, zero, suc, ◌+◌, ◌*◌, ◌/◌, ◌%◌, ◌^◌, ◌≤◌, ◌<◌, Bool, true, false, not, ◌&&◌, ◌||◌, [], ◌∷◌,
  ◌++◌, none, some, length, ◌≡◌, ◌↔◌, refl, ap, ◌∙◌, inl, inr, ◌⊎◌, ◌≢◌, arith, leb, ltb, ◌==◌,
  Bool-cases, ==_iff, Option, Option-cases, subst, sym, if◌then◌else◌,
}
use odp_platform_common.Common.Result.{Result, ok, err, ok_or}
use odp_platform_common.Text.{Text, codes, all_chars, is_whitespace, trim, is_empty, strip_prefix}
use odp_platform_common.Script.Platform.{Platform}
use odp_platform_common.Script.Syntax.{Message, expected_byte, byte_range}
use odp_platform_common.Script.Literal.{
  digit_value, is_digit, digits_from, from_str_radix, radix_of, parse_u8_literal,
}

-- Check every value below a bound by evaluation.
-- A test that passes for each number below a bound.
holds_below : (ℕ → Bool) → ℕ → Bool
holds_below test zero = true
holds_below test (suc bound) = holds_below test bound && test bound

holds_below-lt :
    (test : ℕ → Bool) (bound m : ℕ) → m < bound → holds_below test bound ≡ true → test m ≡ true
unfolding holds_below
holds_below-lt test (suc bound) m below passes = ground (arith, holds_below-lt test bound m)
holds_below-lt test zero m below passes = absurd (omega arith)

-- A number below 1000 in decimal, and a byte in two hexadecimal digits.
abbrev pub decimal : ℕ → Text
decimal n =
    if ltb n 10
    then (48 + n) ∷ []
    else if ltb n 100
    then (48 + n / 10) ∷ (48 + n % 10) ∷ []
    else (48 + n / 100) ∷ (48 + n / 10 % 10) ∷ (48 + n % 10) ∷ []

abbrev pub hex_digit : ℕ → ℕ
hex_digit n = if ltb n 10 then 48 + n else 87 + n

abbrev pub hexadecimal : ℕ → Text
hexadecimal n = hex_digit (n / 16) ∷ hex_digit (n % 16) ∷ []

abbrev yields : {P : Platform} → ℕ → Result ℕ (Message P) → Bool
yields n (ok m) = m == n
yields n (err e) = false

yields-ok : {P : Platform} (n : ℕ) (r : Result ℕ (Message P)) → yields n r ≡ true → r ≡ ok n
yields-ok n (ok m) h = ap ok ((==_iff m n).0 h)
yields-ok n (err e) h = cc

module _ (P : Platform) where
  decimal_table : holds_below (λ n. yields n (parse_u8_literal P (decimal n))) 256 ≡ true
  unfolding holds_below parse_u8_literal is_whitespace
  decimal_table = refl

  hexadecimal_table :
      holds_below (λ n. yields n (parse_u8_literal P (codes "0x" ++ hexadecimal n))) 256 ≡ true
  unfolding holds_below parse_u8_literal is_whitespace
  hexadecimal_table = refl

  -- A byte is read back from its decimal digits, and from `0x` and two hexadecimal digits.
  pub parse_u8_literal-print :
      (n : ℕ)
      → n < 256
      → (parse_u8_literal P (decimal n) ≡ ok n)
        × (parse_u8_literal P (codes "0x" ++ hexadecimal n) ≡ ok n)
  parse_u8_literal-print n h = (
    yields-ok n _ (holds_below-lt _ 256 n h decimal_table),
    yields-ok n _ (holds_below-lt _ 256 n h hexadecimal_table),
  )

  -- The digits of a literal, without its prefix, and their radix.
  abbrev pub digits_of : Text → Text
  digits_of s = (radix_of P (trim s)).0

  abbrev pub base_of : Text → ℕ
  base_of s = (radix_of P (trim s)).1

-- The value of a row of digits, by their places.
abbrev pub place_value : ℕ → Text → ℕ
place_value radix [] = 0
place_value radix (c ∷ s) = digit_value c * radix ^ length s + place_value radix s

digits_from-place_value :
    (radix acc : ℕ) (s : Text)
    → digits_from radix acc s ≡ acc * radix ^ length s + place_value radix s
unfolding digits_from
digits_from-place_value radix acc [] = rw pow-zero (omega arith)
digits_from-place_value radix acc (c ∷ s) =
    digits_from-place_value radix (acc * radix + digit_value c) s ∙ grind (arith, pow-suc)

base_is : (P : Platform) (s : Text) → (base_of P s ≡ 10) ⊎ (base_of P s ≡ 16)
base_is P s = ground arith

plus_is_no_digit :
    (radix c : ℕ) (s : Text)
    → (radix ≡ 10) ⊎ (radix ≡ 16)
    → all_chars (is_digit radix) (c ∷ s) ≡ true
    → (b'+' == c) ≡ false
unfolding all_chars is_digit
plus_is_no_digit radix c s r h = ground arith

digits_value : (radix : ℕ) (s : Text) → digits_from radix 0 s ≡ place_value radix s
digits_value radix s = digits_from-place_value radix 0 s ∙ omega arith

from_str_radix-digits :
    (radix c : ℕ) (s : Text)
    → (radix ≡ 10) ⊎ (radix ≡ 16)
    → all_chars (is_digit radix) (c ∷ s) ≡ true
    → from_str_radix 255 radix (c ∷ s)
      ≡ (if leb (place_value radix (c ∷ s)) 255 then some (place_value radix (c ∷ s)) else none)
unfolding from_str_radix
from_str_radix-digits radix c s r h =
    rw (plus_is_no_digit radix c s r h, h, digits_value radix (c ∷ s))

module _ (P : Platform) where
  -- `parse_u8_literal` behind its split of the prefix.
  abbrev byte_of : Text → Text → ℕ → Result ℕ (Message P)
  byte_of s digits radix =
      if is_empty digits || not (all_chars (is_digit radix) digits)
      then err (expected_byte s)
      else ok_or (from_str_radix 255 radix digits) (byte_range s)

  -- One digit or more of the base, with this value and no more than a byte's.
  abbrev pub Denotes : ℕ → Text → ℕ → Type 0
  Denotes radix digits b =
      (digits ≢ [])
      × (all_chars (is_digit radix) digits ≡ true)
      × (place_value radix digits ≡ b)
      × (b ≤ 255)

  in_range :
      (s : Text) (v b : ℕ)
      → (ok_or {E = Message P} (if leb v 255 then some v else none) (byte_range s) ≡ ok b)
        ↔ ((v ≡ b) × (b ≤ 255))
  in_range s v b = (ground arith, ground arith)

  byte_of_iff :
      (s digits : Text) (radix b : ℕ)
      → (radix ≡ 10) ⊎ (radix ≡ 16)
      → (byte_of s digits radix ≡ ok b) ↔ Denotes radix digits b
  byte_of_iff s [] radix b r = (λ h. cc, λ h. absurd (h.0 refl))
  byte_of_iff s (c ∷ ds) radix b r = elim (Bool-cases (all_chars (is_digit radix) (c ∷ ds))) [
    | inl all ↦
        let m = in_range s (place_value radix (c ∷ ds)) b in
        rw (all, from_str_radix-digits radix c ds r all)
          (λ h. (λ e. cc, refl, (m.0 h).0, (m.0 h).1), λ h. m.1 (h.2, h.3))
    | inr bad ↦ rw bad (λ h. cc, λ h. cc (h.1))
  ]

  strip_0x_some :
      (x : ℕ) (s rest : Text) → strip_prefix (b'0' ∷ x ∷ []) s ≡ some rest → s ≡ b'0' ∷ x ∷ rest
  unfolding strip_prefix
  strip_0x_some x [] rest h = cc
  strip_0x_some x (c ∷ []) rest h = elim (Bool-cases (b'0' == c)) [
    | inl zero_digit ↦
        let wrong : ◌≡◌ {A = Option Text} none (some rest) = rw (strip_prefix, zero_digit) at h in
        cc
    | inr other ↦
        let wrong : ◌≡◌ {A = Option Text} none (some rest) = rw (strip_prefix, other) at h in cc
  ]
  strip_0x_some x (c ∷ d ∷ s) rest h = ground arith

  decimal-strip_prefix :
      (x : ℕ) (s : Text)
      → 64 < x
      → all_chars (is_digit 10) s ≡ true
      → strip_prefix (b'0' ∷ x ∷ []) s ≡ none
  unfolding strip_prefix all_chars is_digit digit_value
  decimal-strip_prefix x [] big h = refl
  decimal-strip_prefix x (c ∷ []) big h = ground arith
  decimal-strip_prefix x (c ∷ d ∷ s) big h = ground arith

  -- A literal's digits and their base: 16 behind `0x` or `0X`, and 10 otherwise.
  pub data IsLiteral : Text → Text → ℕ → Type 0 where
    lower_prefix : {digits : Text} → IsLiteral (b'0' ∷ b'x' ∷ digits) digits 16
    upper_prefix : {digits : Text} → IsLiteral (b'0' ∷ b'X' ∷ digits) digits 16
    no_prefix : {digits : Text} → IsLiteral digits digits 10

  radix_of-IsLiteral : (s : Text) → IsLiteral s (radix_of P s).0 (radix_of P s).1
  unfolding strip_prefix
  radix_of-IsLiteral s = elim (Option-cases (strip_prefix (codes "0x") s)) [
    | inr (rest, e) ↦ simp e (
        subst (λ t. IsLiteral t rest 16) (sym (strip_0x_some b'x' s rest e)) IsLiteral.lower_prefix)
    | inl e ↦ elim (Option-cases (strip_prefix (codes "0X") s)) [
      | inr (rest, e') ↦
          simp (e, e')
            (subst (λ t. IsLiteral t rest 16) (sym (strip_0x_some b'X' s rest e'))
              IsLiteral.upper_prefix)
      | inl e' ↦ simp (e, e') IsLiteral.no_prefix
    ]
  ]

  IsLiteral-radix_of :
      (s digits : Text) (radix b : ℕ)
      → IsLiteral s digits radix
      → Denotes radix digits b
      → radix_of P s ≡ (digits, radix)
  unfolding strip_prefix
  IsLiteral-radix_of s digits radix b IsLiteral.lower_prefix d = refl
  IsLiteral-radix_of s digits radix b IsLiteral.upper_prefix d = refl
  IsLiteral-radix_of s digits radix b IsLiteral.no_prefix d =
      let x : strip_prefix (codes "0x") s ≡ none = decimal-strip_prefix b'x' s (omega arith) d.1 in
      let y : strip_prefix (codes "0X") s ≡ none = decimal-strip_prefix b'X' s (omega arith) d.1 in
      rw (x, y) refl

  digits-byte :
      (s : Text) (b : ℕ) → (parse_u8_literal P s ≡ ok b) ↔ Denotes (base_of P s) (digits_of P s) b
  unfolding parse_u8_literal
  digits-byte s b = byte_of_iff (trim s) (digits_of P s) (base_of P s) b (base_is P s)

  -- A text is read as a byte exactly when it is, without the white space around it, one digit or more
  -- of base 16 behind a prefix `0x` or `0X`, or of base 10 with none, whose value by their places is
  -- that byte and at most 255.
  pub parse_u8_literal_iff :
      (s : Text) (b : ℕ)
      → (parse_u8_literal P s ≡ ok b)
        ↔ ((digits : Text) × (radix : ℕ) × IsLiteral (trim s) digits radix × Denotes radix digits b)
  parse_u8_literal_iff s b = (
    λ h. (digits_of P s, base_of P s, radix_of-IsLiteral (trim s), (digits-byte s b).0 h),
    λ h.
        let (digits, radix, literal, denotes) = h in
        let e = IsLiteral-radix_of (trim s) digits radix b literal denotes in
        (digits-byte s b).1 (subst (λ (r : Text × ℕ). Denotes r.1 r.0 b) (sym e) denotes),
  )
