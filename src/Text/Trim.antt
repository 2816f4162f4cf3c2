-- ===== src/Text/Trim.antt =====
-- Laws of `trim`.
use odp_platform_common.Common.{ℕ, true, false, [], ◌∷◌, ◌++◌, ◌≡◌, refl, ap, ◌∙◌, sym, arith}
use odp_platform_common.Text.{Text, is_whitespace, all_chars, trim_start, trim_end, trim}

pub trim_start-cons : (c : ℕ) (s : Text) → is_whitespace c ≡ false → trim_start (c ∷ s) ≡ c ∷ s
unfolding trim_start
trim_start-cons c s h = rw h

pub trim_end-concat :
    (s : Text) (c : ℕ) → is_whitespace c ≡ false → trim_end (s ++ c ∷ []) ≡ s ++ c ∷ []
unfolding trim_end
trim_end-concat [] c h = rw h
trim_end-concat (x ∷ []) c h = rw h
trim_end-concat (x ∷ y ∷ s) c h = rw (trim_end-concat (y ∷ s) c h)

-- A text that starts and ends with characters that are not white space, or one such character.
pub trim_ends :
    (c d : ℕ) (s : Text)
    → is_whitespace c ≡ false
    → is_whitespace d ≡ false
    → trim (c ∷ (s ++ d ∷ [])) ≡ c ∷ (s ++ d ∷ [])
unfolding trim
trim_ends c d s h k = ap trim_end (trim_start-cons c _ h) ∙ trim_end-concat (c ∷ s) d k

trim_start-append :
    (pad s : Text) → all_chars is_whitespace pad ≡ true → trim_start (pad ++ s) ≡ trim_start s
unfolding all_chars trim_start
trim_start-append [] s h = refl
trim_start-append (c ∷ pad) s h = ground (arith, trim_start-append pad s)

trim_end_pad : (pad : Text) → all_chars is_whitespace pad ≡ true → trim_end pad ≡ []
unfolding all_chars trim_end
trim_end_pad [] h = refl
trim_end_pad (c ∷ pad) h = ground (arith, trim_end_pad pad)

trim_end-append :
    (s pad : Text) → all_chars is_whitespace pad ≡ true → trim_end (s ++ pad) ≡ trim_end s
unfolding trim_end
trim_end-append [] pad h = trim_end_pad pad h
trim_end-append (c ∷ s) pad h = rw (trim_end-append s pad h)

-- White space around a text does not matter.
pub trim_pad :
    (before s behind : Text)
    → all_chars is_whitespace before ≡ true
    → all_chars is_whitespace behind ≡ true
    → trim (before ++ (s ++ behind)) ≡ trim (s ++ behind)
unfolding trim
trim_pad before s behind h k = ap trim_end (trim_start-append before (s ++ behind) h)

pub trim-append :
    (s pad : Text)
    → trim_start (s ++ pad) ≡ s ++ pad
    → trim_start s ≡ s
    → all_chars is_whitespace pad ≡ true
    → trim (s ++ pad) ≡ trim s
unfolding trim
trim-append s pad h k p = ap trim_end h ∙ trim_end-append s pad p ∙ ap trim_end (sym k)
