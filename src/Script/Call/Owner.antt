-- ===== src/Script/Call/Owner.antt =====
-- The calls that the parser returns are well formed.
use odp_platform_common.Common.{
  ℕ, ◌≤◌, ◌==◌, ◌⊎◌, Bool-cases, inl, inr, Bool, true, false, map, ◌||◌, not, ◌&&◌, List, [], ◌∷◌,
  All, Option, ◌≡◌, refl, arith,
}
use odp_platform_common.Common.Result.{
  ok, err, Returns, returned, refused, returns, Returns-ok, Returns->>=, Returns-if, Returns-mono,
}
use odp_platform_common.Text.{
  Text, trim, is_ascii_digit, is_ascii_alphabetic, is_ascii_alphanumeric, all_chars,
}
use odp_platform_common.Script.Platform.{Platform}
use odp_platform_common.Script.Syntax.{
  Target, thermal, battery, rtc, Method, get_temperature, get_rpm, get_min_rpm, get_max_rpm,
  get_threshold, set_threshold, set_rpm, get_bst, get_bix, set_btp, Call, invalid_accessor,
}
use odp_platform_common.Script.Literal.{is_ident}
use odp_platform_common.Script.Call.{
  build_method, parse_target, split_call, accessor_of, check_accessors, call_of_parts, split_dots,
  parse_call,
}

-- The part of a data source that a method calls.
abbrev pub owner : {P : Platform} → Method P → Target
owner get_temperature = thermal
owner get_rpm = thermal
owner get_min_rpm = thermal
owner get_max_rpm = thermal
owner (get_threshold t) = thermal
owner (set_threshold t v) = thermal
owner (set_rpm v) = thermal
owner get_bst = battery
owner get_bix = battery
owner (set_btp v) = battery
owner _ = rtc

and_true : (a b : Bool) → (a && b) ≡ true → (a ≡ true) × (b ≡ true)
and_true a b h = (ground arith, ground arith)

or_right : (a b : Bool) → a ≡ false → (a || b) ≡ true → b ≡ true
or_right a b off h = ground arith

abbrev pub Digit : ℕ → Type 0
Digit c = (0x30 ≤ c) × (c ≤ 0x39)

abbrev pub Letter : ℕ → Type 0
Letter c = ((0x41 ≤ c) × (c ≤ 0x5a)) ⊎ ((0x61 ≤ c) × (c ≤ 0x7a))

abbrev pub Underscore : ℕ → Type 0
Underscore c = c ≡ 0x5f

abbrev pub Head : ℕ → Type 0
Head c = Letter c ⊎ Underscore c

-- A letter or `_`, then letters, digits and `_`; or digits only, and none at all too.
pub data IsAccessor : Text → Type 0 where
  ident : {c : ℕ} {s : Text} → Head c → All (λ d. Head d ⊎ Digit d) s → IsAccessor (c ∷ s)
  index : {s : Text} → All Digit s → IsAccessor s

digits_lem : (s : Text) → all_chars is_ascii_digit s ≡ true → All Digit s
unfolding all_chars is_ascii_digit
digits_lem [] h = tt
digits_lem (c ∷ s) h = ((ground arith, ground arith), digits_lem s (ground arith))

head_lem : (c : ℕ) → (is_ascii_alphabetic c || c == b'_') ≡ true → Head c
unfolding is_ascii_alphabetic
head_lem c h = ground arith

tail_lem : (c : ℕ) → (is_ascii_alphanumeric c || c == b'_') ≡ true → Head c ⊎ Digit c
unfolding is_ascii_alphanumeric is_ascii_alphabetic is_ascii_digit
tail_lem c h = ground arith

tails_lem :
    (s : Text)
    → all_chars (λ d. is_ascii_alphanumeric d || d == b'_') s ≡ true
    → All (λ d. Head d ⊎ Digit d) s
unfolding all_chars
tails_lem [] h = tt
tails_lem (c ∷ s) h =
    let (now, later) = and_true (is_ascii_alphanumeric c || c == b'_') _ h in
    (tail_lem c now, tails_lem s later)

accessor_lem : (p : Text) → (is_ident p || all_chars is_ascii_digit p) ≡ true → IsAccessor p
unfolding is_ident
accessor_lem [] h = IsAccessor.index tt
accessor_lem (c ∷ s) h = elim (Bool-cases (is_ident (c ∷ s))) [
  | inl named ↦
      let (first, rest) = and_true (is_ascii_alphabetic c || c == b'_') _ named in
      IsAccessor.ident (head_lem c first) (tails_lem s rest)
  | inr unnamed ↦
      let digits : all_chars is_ascii_digit (c ∷ s) ≡ true =
        or_right (is_ident (c ∷ s)) _ unnamed h in
      IsAccessor.index (digits_lem (c ∷ s) digits)
]

pub record IsWellFormed {P : Platform} (c : Call P) : Type 0 where
  pub owned : owner c.method ≡ c.target
  pub accessors : All IsAccessor c.projection

not_nor : (a b : Bool) → (not a && not b) ≡ false → (a || b) ≡ true
not_nor a b h = ground arith

module _ (P : Platform) where
  build_method-owner :
      (t : Target) (name : Text) (arg : Option Text)
      → Returns (λ (m : Method P). owner m ≡ t) (build_method P t name arg)
  unfolding build_method
  build_method-owner thermal name arg = search (returns, refl) depth 12
  build_method-owner battery name arg = search (returns, refl) depth 12
  build_method-owner rtc name arg = search (returns, refl) depth 12

  check_accessors-All :
      (ps : List Text) → Returns (λ (_ : Unit {0}). All IsAccessor ps) (check_accessors P ps)
  unfolding check_accessors
  check_accessors-All [] = returned tt
  check_accessors-All (p ∷ ps) =
      Returns-if (not (is_ident p) && not (all_chars is_ascii_digit p))
        {x = err (invalid_accessor p)} (λ _. refused)
        λ good. Returns-mono (check_accessors P ps) (check_accessors-All ps) (λ _ rest.
          (accessor_lem p (not_nor (is_ident p) (all_chars is_ascii_digit p) good), rest))

  call_of_parts-IsWellFormed :
      (src : Text) (parts : List Text) → Returns IsWellFormed (call_of_parts P src parts)
  unfolding call_of_parts
  call_of_parts-IsWellFormed src [] = refused
  call_of_parts-IsWellFormed src (p ∷ []) = refused
  call_of_parts-IsWellFormed src (p ∷ q ∷ parts) = Returns->>= (parse_target P (trim p)) λ target _.
      Returns->>= (split_call P (trim q)) λ named _.
        Returns->>= (build_method P target named.0 named.1) λ method made.
          Returns->>= (check_accessors P (map (accessor_of P) parts)) λ checked fits.
            returned (record {
              owned = Returns-ok _ made (build_method-owner target named.0 named.1);
              accessors = Returns-ok _ fits (check_accessors-All (map (accessor_of P) parts));
            })

  -- A call that the parser returns has a method of its own target, and each accessor of its projection
  -- is a letter or `_` followed by letters, digits and `_`, or consists of digits, maybe none.
  pub parse_call-IsWellFormed : (src : Text) {c : Call P} → parse_call P src ≡ ok c → IsWellFormed c
  unfolding parse_call
  parse_call-IsWellFormed src h =
      Returns-ok _ h
        (Returns->>= (split_dots P src) (λ parts _. call_of_parts-IsWellFormed src parts))
