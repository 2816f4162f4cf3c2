-- ===== src/Boot/LoadOption/Layout.antt =====
-- The layout of the load options that are read.
use odp_platform_common.Common.{
  ℕ, zero, suc, ◌+◌, ◌*◌, ◌%◌, ◌≤◌, ◌<◌, bit_and, bit_and-bit, Bool, true, false, not, Option, none,
  some, List, [], ◌∷◌, ◌++◌, length, length-append, length-drop, length-take, take, drop,
  take-append-drop, ltb, ◌==◌, ==_iff, Bool-cases, inl, inr, ◌≡◌, ◌≢◌, ◌↔◌, refl, sym, subst, ap,
  ◌∙◌, arith,
}
use odp_platform_common.Recovery.DevicePath.{node_length, is_end_entire}
use odp_platform_common.Boot.Paths.{Paths}
use odp_platform_common.Boot.LoadOption.{
  validate_from, validate_device_path_nodes, skip_description, parse_file_path, parse_body,
  parse_load_option,
}

-- Nodes that follow one another in a buffer, each of at least four bytes and within it, up to the
-- first one that ends the entire path.
pub data Walks : List ℕ → Type 0 where
  ends :
      {buffer : List ℕ}
      → is_end_entire buffer ≡ true
      → 4 ≤ node_length buffer
      → node_length buffer ≤ length buffer
      → Walks buffer
  node :
      {buffer : List ℕ}
      → is_end_entire buffer ≡ false
      → 4 ≤ node_length buffer
      → node_length buffer ≤ length buffer
      → Walks (drop (node_length buffer) buffer)
      → Walks buffer

validate-Walks : (fuel : ℕ) (buffer : List ℕ) → validate_from fuel buffer ≡ true → Walks buffer
unfolding validate_from
validate-Walks zero buffer h = cc
validate-Walks (suc fuel) buffer h = elim (Bool-cases (is_end_entire buffer)) [
  | inl e ↦ ends e (ground arith) (ground arith)
  | inr e ↦
      node e (ground arith) (ground arith)
        (validate-Walks fuel (drop (node_length buffer) buffer) (ground arith))
]

Walks-validate :
    (fuel : ℕ) (buffer : List ℕ)
    → length buffer < fuel
    → Walks buffer
    → validate_from fuel buffer ≡ true
unfolding validate_from
Walks-validate zero buffer enough w = absurd (omega arith)
Walks-validate (suc fuel) buffer enough (ends e least inside) =
    let long : ltb (length buffer) 4 ≡ false = ground arith in
    let least' : ltb (node_length buffer) 4 ≡ false = ground arith in
    let inside' : ltb (length buffer) (node_length buffer) ≡ false = ground arith in
    rw (validate_from, long, least', inside', e) refl
Walks-validate (suc fuel) buffer enough (node e least inside rest) =
    let long : ltb (length buffer) 4 ≡ false = ground arith in
    let least' : ltb (node_length buffer) 4 ≡ false = ground arith in
    let inside' : ltb (length buffer) (node_length buffer) ≡ false = ground arith in
    rw (validate_from, long, least', inside', e)
      (Walks-validate fuel (drop (node_length buffer) buffer)
        (omega (arith, length-drop (node_length buffer) buffer)) rest)

-- A buffer is accepted exactly if nodes follow one another within it up to an end.
pub validate_device_path_nodes_iff :
    (buffer : List ℕ) → (validate_device_path_nodes buffer ≡ true) ↔ Walks buffer
unfolding validate_device_path_nodes
validate_device_path_nodes_iff buffer = (
  validate-Walks (suc (length buffer)) buffer,
  Walks-validate (suc (length buffer)) buffer (omega arith),
)

-- Code units of two bytes, none of them 0.
pub data Units : List ℕ → Type 0 where
  no_units : Units []
  unit :
      {low high : ℕ} {units : List ℕ}
      → low + 256 * high ≢ 0
      → Units units
      → Units (low ∷ high ∷ units)

skip_description-Units :
    (bytes rest : List ℕ)
    → skip_description bytes ≡ some rest
    → (description : List ℕ) × Units description × (bytes ≡ description ++ 0 ∷ 0 ∷ rest)
unfolding skip_description
skip_description-Units [] rest h = cc
skip_description-Units (byte ∷ []) rest h = cc
skip_description-Units (low ∷ high ∷ bytes) rest h = elim (Bool-cases (low + 256 * high == 0)) [
  | inl e ↦
      let z = (==_iff (low + 256 * high) 0).0 e in
      let same : bytes ≡ rest = ground arith in
      let l : low ≡ 0 = omega arith in
      let h' : high ≡ 0 = omega arith in ([], no_units, rw (l, h', same) refl)
  | inr e ↦
      let more : skip_description bytes ≡ some rest = ground arith in
      let (description, units, whole) = skip_description-Units bytes rest more in
      let z : low + 256 * high ≢ 0 = λ z. cc (e, (==_iff (low + 256 * high) 0).1 z) in
      (low ∷ high ∷ description, unit z units, ap (λ t. low ∷ high ∷ t) whole)
]

Units-skip_description :
    (description rest : List ℕ)
    → Units description
    → skip_description (description ++ 0 ∷ 0 ∷ rest) ≡ some rest
unfolding skip_description
Units-skip_description [] rest no_units = refl
Units-skip_description (low ∷ []) rest units = elim units [ ]
Units-skip_description (low ∷ high ∷ description) rest (unit z units) =
    let e : (low + 256 * high == 0) ≡ false = ground arith in
    rw (skip_description, e) (Units-skip_description description rest units)

active_iff : (a b c d : ℕ) → bit_and (a + 256 * b + 65536 * c + 16777216 * d) 1 ≡ a % 2
active_iff a b c d =
    let all = a + 256 * b + 65536 * c + 16777216 * d in
    omega (arith, bit_and-bit 0 all 0 all (omega arith) (omega arith))

odd_of : (masked a : ℕ) → not (masked == 0) ≡ true → masked ≡ a % 2 → a % 2 ≡ 1
odd_of masked a h e = ground arith

of_odd : (masked a : ℕ) → a % 2 ≡ 1 → masked ≡ a % 2 → not (masked == 0) ≡ true
of_odd masked a h e = ground arith

take-append : (xs ys : List ℕ) (n : ℕ) → length xs ≡ n → take n (xs ++ ys) ≡ xs
take-append [] ys zero e = refl
take-append [] ys (suc n) e = absurd (omega arith)
take-append (x ∷ xs) ys zero e = absurd (omega arith)
take-append (x ∷ xs) ys (suc n) e = ap (◌∷◌ x) (take-append xs ys n (omega arith))

module _ {Node DevicePath : Type 0} (paths : Paths Node DevicePath) where
  -- The bytes of an active option: the header, of the attributes, whose lowest bit is set, and the
  -- length of the path; the description and its terminator; the device path of that length, with
  -- its nodes in order; and optional bytes.
  pub data IsOption : List ℕ → DevicePath → Type 0 where
    option :
        {a b c d e f : ℕ} {path : DevicePath} (description device_path optional : List ℕ)
        → a % 2 ≡ 1
        → Units description
        → length device_path ≡ e + 256 * f
        → Walks device_path
        → paths.of_bytes device_path ≡ some path
        → IsOption (a ∷ b ∷ c ∷ d ∷ e ∷ f ∷ (description ++ 0 ∷ 0 ∷ (device_path ++ optional))) path

  parse_file_path_iff :
      (n : ℕ) (rest : List ℕ) (path : DevicePath)
      → (parse_file_path paths n rest ≡ some path)
        ↔ ((n ≤ length rest) × Walks (take n rest) × (paths.of_bytes (take n rest) ≡ some path))
  unfolding parse_file_path
  parse_file_path_iff n rest path =
      let valid = validate_device_path_nodes_iff (take n rest) in
      (
        λ h. (ground arith, valid.0 (ground arith), ground arith),
        λ f.
            let inside : ltb (length rest) n ≡ false = ground arith in rw (inside, valid.1 f.1) f.2,
      )

  found :
      (active : Bool) (n : ℕ) (skipped : Option (List ℕ)) (path : DevicePath)
      → parse_body paths active n skipped ≡ some path
      → (tail : List ℕ) × (active ≡ true)
        × (skipped ≡ some tail)
        × (parse_file_path paths n tail ≡ some path)
  unfolding parse_body
  found false n skipped path h = cc
  found true n none path h = cc
  found true n (some tail) path h = (tail, refl, refl, h)

  parse_load_option-IsOption :
      (bytes : List ℕ) (path : DevicePath)
      → parse_load_option paths bytes ≡ some path
      → IsOption bytes path
  unfolding parse_load_option
  parse_load_option-IsOption [] path h = cc
  parse_load_option-IsOption (a ∷ []) path h = cc
  parse_load_option-IsOption (a ∷ b ∷ []) path h = cc
  parse_load_option-IsOption (a ∷ b ∷ c ∷ []) path h = cc
  parse_load_option-IsOption (a ∷ b ∷ c ∷ d ∷ []) path h = cc
  parse_load_option-IsOption (a ∷ b ∷ c ∷ d ∷ e ∷ []) path h = cc
  parse_load_option-IsOption (a ∷ b ∷ c ∷ d ∷ e ∷ f ∷ rest) path h =
      let n = e + 256 * f in
      let (tail, active, skipped, parsed) =
        found (not (bit_and (a + 256 * b + 65536 * c + 16777216 * d) 1 == 0)) n
          (skip_description rest) path h in
      let act = odd_of _ a active (active_iff a b c d) in
      let (description, units, whole) = skip_description-Units rest tail skipped in
      let (inside, walks, made) = (parse_file_path_iff n tail path).0 parsed in
      let split = ap (λ t. description ++ 0 ∷ 0 ∷ t) (sym (take-append-drop n tail)) in
      subst (λ r. IsOption (a ∷ b ∷ c ∷ d ∷ e ∷ f ∷ r) path) (sym (whole ∙ split))
        (option description (take n tail) (drop n tail) act units
          (omega (arith, length-take n tail)) walks made)

  IsOption-parse_load_option :
      (bytes : List ℕ) (path : DevicePath)
      → IsOption bytes path
      → parse_load_option paths bytes ≡ some path
  unfolding parse_load_option parse_body
  IsOption-parse_load_option _ path
        (option {a} {b} {c} {d} {e} {f} description device_path optional act units size walks
          made) =
      let skipped = Units-skip_description description (device_path ++ optional) units in
      let cut = take-append device_path optional (e + 256 * f) size in
      let active = of_odd _ a act (active_iff a b c d) in
      let inside : e + 256 * f ≤ length (device_path ++ optional) =
        omega (arith, length-append device_path optional) in
      let parsed =
        (parse_file_path_iff (e + 256 * f) (device_path ++ optional) path).1
          (inside, subst Walks (sym cut) walks, ap paths.of_bytes cut ∙ made) in
      rw (active, skipped) parsed

  -- The device path of a load option is read exactly if its bytes have the layout of an active one.
  pub parse_load_option_iff :
      (bytes : List ℕ) (path : DevicePath)
      → (parse_load_option paths bytes ≡ some path) ↔ IsOption bytes path
  parse_load_option_iff bytes path =
      (parse_load_option-IsOption bytes path, IsOption-parse_load_option bytes path)
