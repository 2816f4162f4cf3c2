-- ===== src/Text.antt =====
-- The operations of Rust's `str` that the sources use, over the list of a text's characters. An
-- index of the source is a byte offset at a character boundary; here it counts characters.
pub mod Infix
pub mod Search
pub mod Trim
use Prim.Native.Char.{code}
use Prim.Native.String.{String}
use mathlib.Core.Option
use odp_platform_common.Common.{
  ℕ, ◌+◌, ◌-◌, Bool, true, false, ◌&&◌, ◌||◌, List, [], ◌∷◌, ◌++◌, Option, none, some, leb, ◌==◌,
  if◌then◌else◌,
}

abbrev pub Text : Type 0
Text = List ℕ

-- A literal of the source.
abbrev pub codes : String → Text
codes String.[] = []
codes (String.◌∷◌ c s) = code c ∷ codes s

abbrev pub is_empty : Text → Bool
is_empty [] = true
is_empty (c ∷ s) = false

unfoldable pub text_eq : Text → Text → Bool
text_eq [] [] = true
text_eq (x ∷ xs) (y ∷ ys) = x == y && text_eq xs ys
text_eq _ _ = false

-- A test against a literal.
abbrev pub is : Text → String → Bool
is s lit = text_eq s (codes lit)

abbrev pub within : ℕ → ℕ → ℕ → Bool
within lo hi c = leb lo c && leb c hi

-- `char::is_whitespace`: the characters of Unicode's `White_Space`.
unfoldable pub is_whitespace : ℕ → Bool
is_whitespace c =
    within 9 13 c
    || c == 32
    || c == 0x85
    || c == 0xa0
    || c == 0x1680
    || within 0x2000 0x200a c
    || within 0x2028 0x2029 c
    || c == 0x202f
    || c == 0x205f
    || c == 0x3000

unfoldable pub is_ascii_digit : ℕ → Bool
is_ascii_digit = within b'0' b'9'

unfoldable pub is_ascii_alphabetic : ℕ → Bool
is_ascii_alphabetic c = within b'a' b'z' c || within b'A' b'Z' c

unfoldable pub is_ascii_alphanumeric : ℕ → Bool
unfolding is_ascii_alphabetic is_ascii_digit
is_ascii_alphanumeric c = is_ascii_alphabetic c || is_ascii_digit c

-- `chars().all(p)`.
unfoldable pub all_chars : (ℕ → Bool) → Text → Bool
all_chars p [] = true
all_chars p (c ∷ s) = p c && all_chars p s

unfoldable pub trim_start : Text → Text
trim_start [] = []
trim_start (c ∷ s) = let rest = trim_start s in if is_whitespace c then rest else c ∷ s

unfoldable pub trim_end : Text → Text
trim_end [] = []
trim_end (c ∷ s) =
    let rest = trim_end s in if is_empty rest && is_whitespace c then [] else c ∷ rest

unfoldable pub trim : Text → Text
unfolding trim_start trim_end
trim s = trim_end (trim_start s)

unfoldable pub strip_prefix : Text → Text → Option Text
strip_prefix [] s = some s
strip_prefix (p ∷ ps) [] = none
strip_prefix (p ∷ ps) (c ∷ s) = if p == c then strip_prefix ps s else none

unfoldable pub strip_suffix : Text → Text → Option Text
strip_suffix suffix [] = if is_empty suffix then some [] else none
strip_suffix suffix (c ∷ s) =
    let rest = strip_suffix suffix s in
    if text_eq suffix (c ∷ s) then some [] else Option.map (λ (t : Text). c ∷ t) rest

-- The text before the first character that passes, and the text from it on.
unfoldable pub break : (ℕ → Bool) → Text → Text × Text
break p [] = ([], [])
break p (c ∷ s) = let (before, rest) = break p s in if p c then ([], c ∷ s) else (c ∷ before, rest)

abbrev pub past : Text → Text → Option (Text × Text)
past before [] = none
past before (c ∷ rest) = some (before, rest)

-- `split_once` at the first character that passes; `find` and the two slices around the index.
unfoldable pub split_once_at : (ℕ → Bool) → Text → Option (Text × Text)
unfolding break
split_once_at p s = past (break p s).0 (break p s).1

-- `split_once` at the first place of a text that is not empty.
unfoldable pub split_once : Text → Text → Option (Text × Text)
split_once pat [] = none
split_once pat (c ∷ s) =
    let rest = split_once pat s in
    elim (strip_prefix pat (c ∷ s)) [
      | some t ↦ some ([], t)
      | none ↦ Option.map (λ (r : Text × Text). (c ∷ r.0, r.1)) rest
    ]

-- `find` and `rfind` of one character.
unfoldable pub find : ℕ → Text → Option ℕ
find a [] = none
find a (c ∷ s) =
    let rest = find a s in if c == a then some 0 else Option.map (λ (i : ℕ). i + 1) rest

unfoldable pub rfind : ℕ → Text → Option ℕ
rfind a [] = none
rfind a (c ∷ s) = elim (rfind a s) [
  | some i ↦ some (i + 1)
  | none ↦ if c == a then some 0 else none
]

-- `split(c)`: the first part, and the others.
unfoldable pub split_on : ℕ → Text → Text × List Text
split_on a [] = ([], [])
split_on a (c ∷ s) =
    let (part, parts) = split_on a s in if c == a then ([], part ∷ parts) else (c ∷ part, parts)

unfoldable pub split : ℕ → Text → List Text
unfolding split_on
split a s = (split_on a s).0 ∷ (split_on a s).1

unfoldable pub strip_cr : Text → Text
strip_cr [] = []
strip_cr (c ∷ []) = if c == b'\r' then [] else c ∷ []
strip_cr (c ∷ d ∷ s) = c ∷ strip_cr (d ∷ s)

-- `lines()` from inside a line whose characters so far are `line`.
unfoldable pub lines_from : Text → Text → List Text
unfolding strip_cr
lines_from line [] = if is_empty line then [] else line ∷ []
lines_from line (c ∷ s) = elim (c == b'\n') [
  | true ↦ strip_cr line ∷ lines_from [] s
  | false ↦ lines_from (line ++ c ∷ []) s
]

unfoldable pub lines : Text → List Text
unfolding lines_from
lines = lines_from []
