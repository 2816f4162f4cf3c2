-- ===== src/Script/Literal/Timestamp.antt =====
-- What is known of a timestamp that the parser returns.
use mathlib.Core.Option
use odp_platform_common.Common.{
  ℕ, ◌+◌, ◌*◌, ◌++◌, Option-cases, some, inl, inr, get_or, subst, ◌^◌, ◌≤◌, ◌<◌, not, List, [], ◌∷◌,
  length, ◌≡◌, arith, ◌==◌,
}
use odp_platform_common.Common.Result.{
  ok, err, ok_or, ok_or_iff, Returns, returned, refused, Returns-ok, Returns->>=, Returns-if,
  Returns-of,
}
use odp_platform_common.Text.{Text, codes, split, split_on, strip_suffix, trim, trim_start}
use odp_platform_common.Text.Infix.{
  IsInfix, infix_refl, infix_trans, trim-IsInfix, trim_start-IsInfix, strip_prefix-IsInfix,
  strip_suffix-IsInfix, split_once_at-IsInfix, joined, joined-split_on,
}
use odp_platform_common.Script.Platform.{Platform}
use odp_platform_common.Script.Syntax.{buffer_syntax, buffer_size}
use odp_platform_common.Script.Literal.{
  parse_u8_literal, parse_bytes, buffer_parts, initializer_of, decode_bytes, parse_timestamp_buffer,
}
use odp_platform_common.Script.Literal.Bytes.{IsLiteral, Denotes, parse_u8_literal_iff}

module _ (P : Platform) where
  open P use {Timestamp, try_from_bytes}

  -- A literal of this byte.
  abbrev pub IsByte : Text → ℕ → Type 0
  IsByte s b =
      (digits : Text) × (radix : ℕ) × IsLiteral P (trim s) digits radix × Denotes P radix digits b

  -- Literals with a comma between two of them, of these bytes in their order.
  pub data Elements : Text → List ℕ → Type 0 where
    one : (s : Text) {b : ℕ} → IsByte s b → Elements s (b ∷ [])
    more :
        (s : Text) {t : Text} {b : ℕ} {bytes : List ℕ}
        → IsByte s b
        → Elements t bytes
        → Elements (s ++ b',' ∷ t) (b ∷ bytes)

  -- The text contains sixteen byte literals with commas between them, of these bytes, which the shared
  -- decoder turned into the timestamp; the two bytes of the milliseconds, the low one first, are at
  -- most 999, so that their product with a million, in nanoseconds, is a `u32`.
  pub record Decoded (s : Text) (t : Timestamp) : Type 0 where
    pub bytes : List ℕ
    pub list : Text
    pub contained : IsInfix list s
    pub elements : Elements list bytes
    pub sixteen : length bytes ≡ 16
    pub bounded : get_or bytes 8 0 + 256 * get_or bytes 9 0 ≤ 999
    pub fits_u32 : (get_or bytes 8 0 + 256 * get_or bytes 9 0) * 1_000_000 < 2 ^ 32
    pub decoded : try_from_bytes bytes ≡ ok t

  parse_bytes-Elements :
      (part : Text) (parts : List Text)
      → Returns (Elements (joined b',' part parts)) (parse_bytes P (part ∷ parts))
  unfolding parse_bytes
  parse_bytes-Elements part [] =
      Returns->>= (parse_u8_literal P part)
        λ b read. returned (Elements.one part ((parse_u8_literal_iff P part b).0 read))
  parse_bytes-Elements part (next ∷ parts) = Returns->>= (parse_u8_literal P part) λ b read.
      Returns->>= (parse_bytes P (next ∷ parts)) λ bytes rest. returned (
        Elements.more part ((parse_u8_literal_iff P part b).0 read)
          (Returns-ok _ rest (parse_bytes-Elements next parts)))

  split-Elements :
      (s : Text) (bytes : List ℕ) → parse_bytes P (split b',' s) ≡ ok bytes → Elements s bytes
  unfolding split
  split-Elements s bytes read =
      subst (λ t. Elements t bytes) (joined-split_on b',' s)
        (Returns-ok _ read (parse_bytes-Elements (split_on b',' s).0 (split_on b',' s).1))

  decode_bytes-Decoded :
      (s list : Text) (bytes : List ℕ) {t : Timestamp}
      → IsInfix list s
      → Elements list bytes
      → decode_bytes P bytes ≡ ok t
      → Decoded s t
  unfolding decode_bytes
  decode_bytes-Decoded s list bytes contained elements h = record {
    bytes = bytes;
    list = list;
    contained = contained;
    elements = elements;
    sixteen = ground arith;
    bounded = ground arith;
    fits_u32 = ground arith;
    decoded = ground arith;
  }

  buffer_parts-IsInfix :
      (s : Text) {parts : Text × Text} → buffer_parts P s ≡ some parts → IsInfix parts.1 s
  unfolding buffer_parts
  buffer_parts-IsInfix s {parts} h =
      let (opened, front, once) = (Option.bind-eq-some_iff _ _).0 h in
      let (rest, named, paren) = (Option.bind-eq-some_iff _ _).0 front in
      infix_trans s opened parts.1 (split_once_at-IsInfix _ opened once) (
        infix_trans s (trim_start rest) opened
          (strip_prefix-IsInfix (codes "(") (trim_start rest) paren)
          (infix_trans s rest (trim_start rest) (trim_start-IsInfix rest)
            (strip_prefix-IsInfix (codes "Buffer") s named)))

  initializer_of-IsInfix :
      (s : Text) {list : Text} → initializer_of P s ≡ some list → IsInfix list s
  unfolding initializer_of
  initializer_of-IsInfix s {list} h =
      let (inner, front, trimmed) = (Option.map-eq-some_iff _ _).0 h in
      let (rest, opened, closed) = (Option.bind-eq-some_iff _ _).0 front in
      let between : IsInfix inner s =
        infix_trans s rest inner (strip_suffix-IsInfix (codes "}") rest closed) (
          infix_trans s (trim s) rest (strip_prefix-IsInfix (codes "{") (trim s) opened)
            (trim-IsInfix s)) in
      subst (λ t. IsInfix t s) trimmed
        (infix_trans s inner (trim inner) (trim-IsInfix inner) between)

  without_comma-IsInfix :
      (list : Text) → IsInfix (Option.get_or (strip_suffix (codes ",") list) list) list
  without_comma-IsInfix list = elim (Option-cases (strip_suffix (codes ",") list)) [
    | inl kept ↦ rw kept (infix_refl list)
    | inr (rest, cut) ↦ rw cut (strip_suffix-IsInfix (codes ",") list cut)
  ]

  parse_timestamp_buffer-Returns : (s : Text) → Returns (Decoded s) (parse_timestamp_buffer P s)
  unfolding parse_timestamp_buffer
  parse_timestamp_buffer-Returns s =
      Returns->>= (ok_or (buffer_parts P s) buffer_syntax) λ parts found.
        Returns->>= (parse_u8_literal P parts.0) λ size _.
          Returns-if (not (size == 16)) {x = err buffer_size} (λ _. refused)
            λ _. Returns->>= (ok_or (initializer_of P parts.1) buffer_syntax) λ init braced.
              let list = Option.get_or (strip_suffix (codes ",") init) init in
              Returns->>= (parse_bytes P (split b',' list)) λ bytes read.
                Returns-of (decode_bytes P bytes) (λ t.
                  decode_bytes-Decoded s list bytes
                    (infix_trans s init list (without_comma-IsInfix init) (
                      infix_trans s parts.1 init
                        (initializer_of-IsInfix parts.1
                          ((ok_or_iff (initializer_of P parts.1) buffer_syntax init).0 braced))
                        (buffer_parts-IsInfix s
                          ((ok_or_iff (buffer_parts P s) buffer_syntax parts).0 found))))
                    (split-Elements list bytes read))

  -- A timestamp that the parser returns was decoded from sixteen bytes, those of literals that stand in
  -- the text with commas between them; the ninth and the tenth of them, the milliseconds with the low
  -- byte first, are at most 999.
  pub parse_timestamp_buffer-Decoded :
      (s : Text) {t : Timestamp} → parse_timestamp_buffer P s ≡ ok t → Decoded s t
  parse_timestamp_buffer-Decoded s h = Returns-ok _ h (parse_timestamp_buffer-Returns s)
