-- ===== src/Text/Search.antt =====
-- Laws of the searches and splits.
use odp_platform_common.Common.{
  ℕ, Bool, true, not, [], ◌∷◌, ◌++◌, none, some, ◌≡◌, refl, arith, ◌==◌, ==_iff, ◌↔◌,
}
use odp_platform_common.Text.{
  Text, text_eq, all_chars, strip_prefix, break, split_once_at, split_on, split,
}

-- No character of the text passes.
abbrev pub Lacks : (ℕ → Bool) → Text → Type 0
Lacks p s = all_chars (λ c. not (p c)) s ≡ true

pub text_eq_iff : (s t : Text) → (text_eq s t ≡ true) ↔ (s ≡ t)
unfolding text_eq
text_eq_iff (x ∷ s) (y ∷ t) = ground (arith, text_eq_iff s t)
text_eq_iff _ _ = ground arith

pub text_eq_refl : (s : Text) → text_eq s s ≡ true
text_eq_refl s = (text_eq_iff s s).1 refl

pub break-append :
    (p : ℕ → Bool) (s : Text) (c : ℕ) (t : Text)
    → Lacks p s
    → p c ≡ true
    → break p (s ++ c ∷ t) ≡ (s, c ∷ t)
unfolding break all_chars
break-append p [] c t h k = rw k
break-append p (x ∷ s) c t h k = ground (arith, break-append p s c t)

pub break-Lacks : (p : ℕ → Bool) (s : Text) → Lacks p s → break p s ≡ (s, [])
unfolding break all_chars
break-Lacks p [] h = refl
break-Lacks p (x ∷ s) h = ground (arith, break-Lacks p s)

pub append-break : (p : ℕ → Bool) (s : Text) → (break p s).0 ++ (break p s).1 ≡ s
unfolding break
append-break p [] = refl
append-break p (c ∷ s) = ground (arith, append-break p s)

pub Lacks-break : (p : ℕ → Bool) (s : Text) → Lacks p (break p s).0
unfolding break all_chars
Lacks-break p [] = refl
Lacks-break p (c ∷ s) = ground (arith, Lacks-break p s)

pub split_once_at-append :
    (p : ℕ → Bool) (s : Text) (c : ℕ) (t : Text)
    → Lacks p s
    → p c ≡ true
    → split_once_at p (s ++ c ∷ t) ≡ some (s, t)
unfolding split_once_at
split_once_at-append p s c t h k = rw (break-append p s c t h k)

pub split_once_at-Lacks : (p : ℕ → Bool) (s : Text) → Lacks p s → split_once_at p s ≡ none
unfolding split_once_at
split_once_at-Lacks p s h = rw (break-Lacks p s h)

pub strip_prefix-append : (pre s : Text) → strip_prefix pre (pre ++ s) ≡ some s
unfolding strip_prefix
strip_prefix-append [] s = refl
strip_prefix-append (c ∷ pre) s = rw ((==_iff c c).1 refl) (strip_prefix-append pre s)

split_on-Lacks : (c : ℕ) (s : Text) → Lacks (λ d. d == c) s → split_on c s ≡ (s, [])
unfolding split_on all_chars
split_on-Lacks c [] h = refl
split_on-Lacks c (x ∷ s) h = ground (arith, split_on-Lacks c s)

split_on-append :
    (c : ℕ) (s t : Text) → Lacks (λ d. d == c) s → split_on c (s ++ c ∷ t) ≡ (s, split c t)
unfolding split_on split all_chars
split_on-append c [] t h = ground arith
split_on-append c (x ∷ s) t h = ground (arith, split_on-append c s t)

pub split-Lacks : (c : ℕ) (s : Text) → Lacks (λ d. d == c) s → split c s ≡ s ∷ []
unfolding split
split-Lacks c s h = rw (split_on-Lacks c s h)

pub split-append :
    (c : ℕ) (s t : Text) → Lacks (λ d. d == c) s → split c (s ++ c ∷ t) ≡ s ∷ split c t
split-append c s t h = unfold split in rw (split_on-append c s t h)
