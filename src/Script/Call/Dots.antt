-- ===== src/Script/Call/Dots.antt =====
-- The split of a call at its top-level dots, against a description without the loop.
use mathlib.Core.List.{concat-ne-nil}
use odp_platform_common.Common.{
  ℕ, ◌+◌, ◌-◌, ◌&&◌, not, List, [], ◌∷◌, ◌++◌, Option, none, some, some-injective, append-nil,
  append_assoc, All, ◌≡◌, ◌≢◌, ◌↔◌, refl, sym, ap, subst, ◌∙◌, inl, inr, arith, ◌==◌, if◌then◌else◌,
  Option-cases,
}
use odp_platform_common.Common.Result.{Result, ok, err, >>=-eq-ok, ok-injective}
use odp_platform_common.Text.{Text}
use odp_platform_common.Script.Platform.{Platform}
use odp_platform_common.Script.Syntax.{Message, unbalanced}
use odp_platform_common.Script.Call.{Scan, scan_step, scan, split_dots}

-- The number of parentheses open behind a character; none behind a `)` that closes nothing, and
-- behind a dot outside parentheses.
abbrev pub level_step : ℕ → ℕ → Option ℕ
level_step d c =
    if c == b'('
    then some (d + 1)
    else if c == b')'
    then if d == 0 then none else some (d - 1)
    else if c == b'.' && d == 0
    then none
    else some d

abbrev pub level_next : Option ℕ → ℕ → Option ℕ
level_next none c = none
level_next (some d) c = level_step d c

abbrev pub level : Option ℕ → Text → Option ℕ
level o [] = o
level o (c ∷ s) = level (level_next o c) s

-- Balanced, with no dot outside parentheses.
abbrev pub Piece : Text → Type 0
Piece p = level (some 0) p ≡ some 0

-- The pieces with dots between them.
abbrev pub join : List Text → Text
join [] = []
join (p ∷ []) = p
join (p ∷ q ∷ rest) = p ++ b'.' ∷ join (q ∷ rest)

-- Each piece with a dot behind it.
abbrev dotted : List Text → Text
dotted [] = []
dotted (p ∷ ps) = p ++ b'.' ∷ dotted ps

dotted-append : (ps qs : List Text) → dotted (ps ++ qs) ≡ dotted ps ++ dotted qs
dotted-append [] qs = refl
dotted-append (p ∷ ps) qs =
    ap (λ (t : Text). p ++ b'.' ∷ t) (dotted-append ps qs)
    ∙ sym (append_assoc p (b'.' ∷ dotted ps) _)

join-dotted : (ps : List Text) (last : Text) → join (ps ++ last ∷ []) ≡ dotted ps ++ last
join-dotted [] last = refl
join-dotted (p ∷ []) last = sym (append_assoc p (b'.' ∷ []) last)
join-dotted (p ∷ q ∷ ps) last =
    ap (λ (t : Text). p ++ b'.' ∷ t) (join-dotted (q ∷ ps) last)
    ∙ sym (append_assoc p (b'.' ∷ dotted (q ∷ ps)) last)

Pieces-concat : (ps : List Text) (q : Text) → All Piece ps → Piece q → All Piece (ps ++ q ∷ [])
Pieces-concat [] q h b = (b, tt)
Pieces-concat (p ∷ ps) q h b = (h.0, Pieces-concat ps q h.1 b)

level-append : (s t : Text) (o : Option ℕ) → level o (s ++ t) ≡ level (level o s) t
level-append [] t o = refl
level-append (c ∷ s) t o = level-append s t (level_next o c)

level-none : (s : Text) → level none s ≡ none
level-none [] = refl
level-none (c ∷ s) = level-none s

module _ (P : Platform) (src : Text) where
  -- What the loop has read, and what it knows of it.
  abbrev consumed : Scan → Text
  consumed s = dotted s.parts ++ s.cur

  abbrev Inv : Scan → Type 0
  Inv s = All Piece s.parts × (level (some 0) s.cur ≡ some s.depth)

  scan_step-level :
      (s : Scan) (c d : ℕ)
      → level_step s.depth c ≡ some d
      → scan_step P src s c ≡ ok (record s { depth = d; cur = s.cur ++ c ∷ [] })
  unfolding scan_step
  scan_step-level s c d h = ground arith

  -- A text that keeps its dots inside parentheses goes to the current part.
  scan-level :
      (p rest : Text) (s : Scan) {d : ℕ}
      → level (some s.depth) p ≡ some d
      → scan P src s (p ++ rest) ≡ scan P src (record s { depth = d; cur = s.cur ++ p }) rest
  unfolding scan
  scan-level [] rest s h =
      rw (append-nil s.cur)
        (ap (λ (d : ℕ). scan P src (record s { depth = d }) rest) (some-injective _ _ h))
  scan-level (c ∷ p) rest s h = elim (Option-cases (level_step s.depth c)) [
    | inl stuck ↦ cc (rw stuck at h, level-none p)
    | inr (e, step) ↦ rw (scan_step-level s c e step) (
        scan-level p rest (record s { depth = e; cur = s.cur ++ c ∷ [] }) (rw step at h)
        ∙ rw (append_assoc s.cur (c ∷ []) p))
  ]

  scan_dot :
      (s : Scan) (rest : Text)
      → s.depth ≡ 0
      → scan P src s (b'.' ∷ rest)
        ≡ scan P src (record s { parts = s.parts ++ s.cur ∷ []; cur = [] }) rest
  unfolding scan scan_step
  scan_dot s rest h = ground arith

  -- What the loop leaves for the code behind it.
  abbrev Ends : Result Scan (Message P) → List Text → Type 0
  Ends r ps = (t : Scan) × (r ≡ ok t) × (t.depth ≡ 0) × (t.parts ++ t.cur ∷ [] ≡ ps)

  scan-join :
      (p : Text) (ps before : List Text)
      → All Piece (p ∷ ps)
      → Ends
          (scan P src (record { parts = before; depth = 0; cur = [] }) (join (p ∷ ps)))
          (before ++ p ∷ ps)
  unfolding scan
  scan-join p [] before h = (
    record { parts = before; depth = 0; cur = p },
    ap (scan P src _) (sym (append-nil p)) ∙ scan-level p [] _ h.0,
    refl,
    refl,
  )
  scan-join p (q ∷ ps) before h =
      let (t, run, closed, parts) = scan-join q ps (before ++ p ∷ []) h.1 in
      (
        t,
        scan-level p (b'.' ∷ join (q ∷ ps)) _ h.0
            ∙ scan_dot (record { parts = before; depth = 0; cur = p }) (join (q ∷ ps)) refl
            ∙ run,
        closed,
        parts ∙ append_assoc before (p ∷ []) (q ∷ ps),
      )

  scan_step-part :
      (s : Scan) (c : ℕ) {t : Scan}
      → level_step s.depth c ≡ none
      → scan_step P src s c ≡ ok t
      → (record s { parts = s.parts ++ s.cur ∷ []; cur = [] } ≡ t) × (s.depth ≡ 0) × (c ≡ b'.')
  unfolding scan_step
  scan_step-part s c h e = ground arith

  Inv-part :
      (s : Scan) → s.depth ≡ 0 → Inv s → Inv (record s { parts = s.parts ++ s.cur ∷ []; cur = [] })
  Inv-part s z inv = (Pieces-concat s.parts s.cur inv.0 (inv.1 ∙ ap some z), ap some (sym z))

  consumed-part :
      (s : Scan) (c : ℕ)
      → c ≡ b'.'
      → consumed (record s { parts = s.parts ++ s.cur ∷ []; cur = [] }) ≡ consumed s ++ c ∷ []
  consumed-part s c e =
      append-nil _
      ∙ dotted-append s.parts (s.cur ∷ [])
      ∙ sym (append_assoc (dotted s.parts) s.cur (b'.' ∷ []))
      ∙ ap (λ (d : ℕ). consumed s ++ d ∷ []) (sym e)

  -- One step reads its character and keeps the invariant.
  scan_step-Inv :
      (s : Scan) (c : ℕ) {t : Scan}
      → scan_step P src s c ≡ ok t
      → Inv s
      → Inv t × (consumed t ≡ consumed s ++ c ∷ [])
  scan_step-Inv s c h inv = elim (Option-cases (level_step s.depth c)) [
    | inl dot ↦
        let (next, closed, c_is) = scan_step-part s c dot h in
        subst (λ (t : Scan). Inv t × (consumed t ≡ consumed s ++ c ∷ [])) next
          (Inv-part s closed inv, consumed-part s c c_is)
    | inr (d, step) ↦
        subst (λ (t : Scan). Inv t × (consumed t ≡ consumed s ++ c ∷ []))
          (ok-injective (sym (scan_step-level s c d step) ∙ h))
          (
            (
              inv.0,
              level-append s.cur (c ∷ []) (some 0)
                  ∙ ap (λ (o : Option ℕ). level_next o c) inv.1
                  ∙ step,
            ),
            sym (append_assoc (dotted s.parts) s.cur (c ∷ [])),
          )
  ]

  scan-Inv :
      (rest : Text) (s : Scan) {t : Scan}
      → scan P src s rest ≡ ok t
      → Inv s
      → Inv t × (consumed t ≡ consumed s ++ rest)
  unfolding scan
  scan-Inv [] s h inv =
      subst (λ (t : Scan). Inv t × (consumed t ≡ consumed s ++ [])) (ok-injective h)
        (inv, sym (append-nil _))
  scan-Inv (c ∷ rest) s h inv =
      let (u, step, more) = >>=-eq-ok (scan_step P src s c) _ h in
      let (inv', read) = scan_step-Inv s c step inv in
      let (inv'', read') = scan-Inv rest u more inv' in
      (inv'', read' ∙ ap (λ (x : Text). x ++ rest) read ∙ append_assoc (consumed s) (c ∷ []) rest)

  -- The code behind the loop.
  abbrev after : Scan → Result (List Text) (Message P)
  after s = if not (s.depth == 0) then err (unbalanced src) else ok (s.parts ++ s.cur ∷ [])

  after-ok :
      (s : Scan) {parts : List Text}
      → after s ≡ ok parts
      → (s.depth ≡ 0) × (s.parts ++ s.cur ∷ [] ≡ parts)
  after-ok s h = ground arith

  split_dots_sound :
      {parts : List Text}
      → split_dots P src ≡ ok parts
      → (parts ≢ []) × All Piece parts × (src ≡ join parts)
  unfolding split_dots
  split_dots_sound h =
      let (s, run, e) =
        >>=-eq-ok (scan P src (record { parts = []; depth = 0; cur = [] }) src) after h in
      let (inv, read) = scan-Inv src _ run (tt, refl) in
      let (closed, whole) = after-ok s e in
      subst (λ (ps : List Text). (ps ≢ []) × All Piece ps × (src ≡ join ps)) whole
        (
          concat-ne-nil s.cur s.parts,
          Pieces-concat s.parts s.cur inv.0 (inv.1 ∙ ap some closed),
          sym (join-dotted s.parts s.cur ∙ read),
        )

split_dots-join :
    (P : Platform) (p : Text) (ps : List Text)
    → All Piece (p ∷ ps)
    → split_dots P (join (p ∷ ps)) ≡ ok (p ∷ ps)
unfolding split_dots
split_dots-join P p ps all =
    let (t, run, closed, whole) = scan-join P (join (p ∷ ps)) p ps [] all in
    rw run (rw closed (ap ok whole))

-- The split of a call returns these parts exactly when there is at least one part, each has balanced
-- parentheses and no dot outside them, and the call is the parts with dots between them.
pub split_dots_iff :
    (P : Platform) (src : Text) (parts : List Text)
    → (split_dots P src ≡ ok parts) ↔ ((parts ≢ []) × All Piece parts × (src ≡ join parts))
split_dots_iff P src [] = (split_dots_sound P src, λ h. absurd (h.0 refl))
split_dots_iff P src (p ∷ ps) = (split_dots_sound P src, λ h. rw h.2 (split_dots-join P p ps h.1))
