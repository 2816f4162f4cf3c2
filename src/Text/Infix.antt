-- ===== src/Text/Infix.antt =====
-- The part of a text that a search leaves.
use odp_platform_common.Common.{
  ℕ, Bool, ◌&&◌, Bool-cases, inl, inr, List, [], ◌∷◌, ◌++◌, append-nil, append_assoc, Option,
  Option-cases, none, some, ◌==◌, ==_iff, ◌≡◌, refl, sym, ap, ◌∙◌, some-injective,
}
use odp_platform_common.Text.{
  Text, past, is_empty, is_whitespace, text_eq, trim_start, trim_end, trim, strip_prefix,
  strip_suffix, split_once_at, break, split_on,
}
use odp_platform_common.Text.Search.{append-break}

-- A part of the text, with what stands before and behind it.
abbrev pub IsInfix : Text → Text → Type 0
IsInfix t s = (front : Text) × (back : Text) × (s ≡ front ++ (t ++ back))

pub infix_refl : (s : Text) → IsInfix s s
infix_refl s = ([], [], sym (append-nil s))

pub infix_trans : (r s t : Text) → IsInfix t s → IsInfix s r → IsInfix t r
infix_trans r s t (front, back, e) (front', back', e') = (
  front' ++ front,
  back ++ back',
  e'
      ∙ ap (λ m. front' ++ (m ++ back')) e
      ∙ ap (◌++◌ front') (append_assoc front (t ++ back) back')
      ∙ ap (λ m. front' ++ (front ++ m)) (append_assoc t back back')
      ∙ sym (append_assoc front' front (t ++ (back ++ back'))),
)

behind : (c : ℕ) (t s : Text) → IsInfix t s → IsInfix t (c ∷ s)
behind c t s (front, back, e) = (c ∷ front, back, ap (◌∷◌ c) e)

pub trim_start-IsInfix : (s : Text) → IsInfix (trim_start s) s
unfolding trim_start
trim_start-IsInfix [] = infix_refl []
trim_start-IsInfix (c ∷ s) = elim (Bool-cases (is_whitespace c)) [
  | inl white ↦ simp white (behind c _ _ (trim_start-IsInfix s))
  | inr other ↦ simp other (infix_refl (c ∷ s))
]

trim_end_front : (s : Text) → (back : Text) × (s ≡ trim_end s ++ back)
unfolding trim_end
trim_end_front [] = ([], refl)
trim_end_front (c ∷ s) =
    let (back, e) = trim_end_front s in
    elim (Bool-cases (is_empty (trim_end s) && is_whitespace c)) [
      | inl gone ↦ simp gone (c ∷ s, refl)
      | inr kept ↦ simp kept (back, ap (◌∷◌ c) e)
    ]

pub trim-IsInfix : (s : Text) → IsInfix (trim s) s
unfolding trim
trim-IsInfix s =
    let (back, e) = trim_end_front (trim_start s) in
    infix_trans s _ _ ([], back, e) (trim_start-IsInfix s)

pub strip_prefix-IsInfix : (pre s : Text) {t : Text} → strip_prefix pre s ≡ some t → IsInfix t s
unfolding strip_prefix
strip_prefix-IsInfix [] s {t} h = ([], [], some-injective _ _ h ∙ sym (append-nil t))
strip_prefix-IsInfix (p ∷ pre) [] h = cc
strip_prefix-IsInfix (p ∷ pre) (c ∷ s) {t} h = elim (Bool-cases (p == c)) [
  | inl same ↦
      let h' : strip_prefix pre s ≡ some t = rw (strip_prefix, same) at h in
      behind c _ _ (strip_prefix-IsInfix pre s h')
  | inr other ↦
      let wrong : ◌≡◌ {A = Option Text} none (some t) = rw (strip_prefix, other) at h in cc
]

strip_suffix_front :
    (suffix s : Text) {t : Text} → strip_suffix suffix s ≡ some t → (back : Text) × (s ≡ t ++ back)
unfolding strip_suffix
strip_suffix_front suffix [] {t} h = elim (Bool-cases (is_empty suffix)) [
  | inl no_suffix ↦
      let h' : ◌≡◌ {A = Option Text} (some []) (some t) = rw (strip_suffix, no_suffix) at h in
      ([], some-injective _ _ h' ∙ sym (append-nil t))
  | inr longer ↦
      let wrong : ◌≡◌ {A = Option Text} none (some t) = rw (strip_suffix, longer) at h in cc
]
strip_suffix_front suffix (c ∷ s) {t} h = elim (Bool-cases (text_eq suffix (c ∷ s))) [
  | inl ends ↦
      let h' : ◌≡◌ {A = Option Text} (some []) (some t) = rw (strip_suffix, ends) at h in
      (c ∷ s, ap (λ m. m ++ (c ∷ s)) (some-injective _ _ h'))
  | inr more ↦ elim (Option-cases (strip_suffix suffix s)) [
    | inl missing ↦
        let wrong : ◌≡◌ {A = Option Text} none (some t) = rw (strip_suffix, more, missing) at h in
        cc
    | inr (u, found) ↦
        let h' : ◌≡◌ {A = Option Text} (some (c ∷ u)) (some t) =
          rw (strip_suffix, more, found) at h in
        let (back, e) = strip_suffix_front suffix s found in
        (back, ap (◌∷◌ c) e ∙ ap (λ m. m ++ back) (some-injective _ _ h'))
  ]
]

pub strip_suffix-IsInfix :
    (suffix s : Text) {t : Text} → strip_suffix suffix s ≡ some t → IsInfix t s
strip_suffix-IsInfix suffix s h = let (back, e) = strip_suffix_front suffix s h in ([], back, e)

past_infix :
    (before rest s : Text) {r : Text × Text}
    → before ++ rest ≡ s
    → past before rest ≡ some r
    → IsInfix r.1 s
past_infix before [] s e h = cc
past_infix before (c ∷ rest) s {r} e h =
    let same : rest ≡ r.1 = ap (λ q. q.1) (some-injective _ _ h) in
    (
      before ++ c ∷ [],
      [],
      sym e
          ∙ sym (append_assoc before (c ∷ []) rest)
          ∙ ap (◌++◌ (before ++ c ∷ [])) (same ∙ sym (append-nil r.1)),
    )

pub split_once_at-IsInfix :
    (p : ℕ → Bool) (s : Text) {r : Text × Text} → split_once_at p s ≡ some r → IsInfix r.1 s
unfolding split_once_at
split_once_at-IsInfix p s {r} h = past_infix (break p s).0 (break p s).1 s (append-break p s) h

-- The text of parts with one character between them.
abbrev pub joined : ℕ → Text → List Text → Text
joined c part [] = part
joined c part (next ∷ parts) = part ++ c ∷ joined c next parts

joined-cons :
    (c x : ℕ) (part : Text) (parts : List Text)
    → joined c (x ∷ part) parts ≡ x ∷ joined c part parts
joined-cons c x part [] = refl
joined-cons c x part (next ∷ parts) = refl

pub joined-split_on : (c : ℕ) (s : Text) → joined c (split_on c s).0 (split_on c s).1 ≡ s
unfolding split_on
joined-split_on c [] = refl
joined-split_on c (x ∷ s) = elim (Bool-cases (x == c)) [
  | inl same ↦
      let e : c ≡ x = sym ((==_iff x c).0 same) in
      rw same (ap (λ t. c ∷ t) (joined-split_on c s) ∙ ap (λ y. y ∷ s) e)
  | inr other ↦
      rw other
        (joined-cons c x (split_on c s).0 (split_on c s).1 ∙ ap (◌∷◌ x) (joined-split_on c s))
]
