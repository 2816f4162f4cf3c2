-- ===== src/Script/Parser/Drain.antt =====
-- The loop over the statements of the buffer ends with no statement left.
use odp_platform_common.Common.{
  ℕ, zero, suc, ◌≤◌, ◌<◌, Bool, [], ◌∷◌, none, some, some-injective, length, ◌==◌, ◌≡◌, refl, ap,
  arith, Option-cases, inl, inr,
}
use odp_platform_common.Common.Result.{
  ok, map_err, Returns, returned, Returns-ok, Returns-if, Returns->>=,
}
use odp_platform_common.Text.{
  Text, is_empty, all_chars, trim, trim_start, break, past, split_once_at,
}
use odp_platform_common.Text.Search.{Lacks}
use odp_platform_common.Script.Platform.{Platform}
use odp_platform_common.Script.Parser.{Reader, at_line, parse_stmt, take_stmt, drain}

trim_start-length : (s : Text) → length (trim_start s) ≤ length s
unfolding trim_start
trim_start-length [] = omega arith
trim_start-length (c ∷ s) = ground (arith, trim_start-length s)

break-length : (p : ℕ → Bool) (s : Text) → length (break p s).1 ≤ length s
unfolding break
break-length p [] = omega arith
break-length p (c ∷ s) = ground (arith, break-length p s)

break-Lacks_all : (p : ℕ → Bool) (s : Text) → (break p s).1 ≡ [] → Lacks p s
unfolding break all_chars
break-Lacks_all p [] h = refl
break-Lacks_all p (c ∷ s) h = ground (arith, break-Lacks_all p s)

past-none : (before rest : Text) → past before rest ≡ none → rest ≡ []
past-none before [] h = refl
past-none before (c ∷ rest) h = cc

past-some :
    (before rest : Text) {r : Text × Text} → past before rest ≡ some r → length r.1 < length rest
past-some before [] h = cc
past-some before (c ∷ rest) h =
    let e = ap length (ap (λ q. q.1) (some-injective _ _ h)) in omega (arith, e)

split_once_at-none : (p : ℕ → Bool) (s : Text) → split_once_at p s ≡ none → Lacks p s
unfolding split_once_at
split_once_at-none p s h = break-Lacks_all p s (past-none _ _ h)

split_once_at-length :
    (p : ℕ → Bool) (s : Text) {r : Text × Text} → split_once_at p s ≡ some r → length r.1 < length s
unfolding split_once_at
split_once_at-length p s h =
    omega (arith, past-some (break p s).0 (break p s).1 h, break-length p s)

Lacks-nil : (p : ℕ → Bool) (s : Text) → length s ≤ 0 → Lacks p s
unfolding all_chars
Lacks-nil p [] h = refl
Lacks-nil p (c ∷ s) h = absurd (omega arith)

module _ (P : Platform) where
  take_stmt-buf :
      (lineno : ℕ) (r : Reader P) (before behind : Text)
      → Returns (λ next. length next.buf ≤ length behind) (take_stmt P lineno r before behind)
  unfolding take_stmt
  take_stmt-buf lineno r before behind =
      Returns-if (is_empty (trim before)) (λ _. returned (trim_start-length behind))
        λ _.
          Returns->>= (map_err (at_line P r.start_line) (parse_stmt P r.start_line (trim before)))
            λ stmt _. returned (trim_start-length behind)

  drain-Returns :
      (fuel lineno : ℕ) (r : Reader P)
      → length r.buf ≤ fuel
      → Returns (λ next. Lacks (λ c. c == b';') next.buf) (drain P fuel lineno r)
  unfolding drain all_chars
  drain-Returns zero lineno r h = returned (Lacks-nil (λ c. c == b';') r.buf h)
  drain-Returns (suc fuel) lineno r h = elim (Option-cases (split_once_at (λ c. c == b';') r.buf)) [
    | inl none_left ↦
        rw (drain, none_left) (returned (split_once_at-none (λ c. c == b';') r.buf none_left))
    | inr (parts, found) ↦
        let shorter = split_once_at-length (λ c. c == b';') r.buf found in
        rw (drain, found)
          (Returns->>= (take_stmt P lineno r parts.0 parts.1) λ next taken.
            drain-Returns fuel lineno next
              (omega (arith, shorter, Returns-ok _ taken (take_stmt-buf lineno r parts.0 parts.1))))
  ]

  -- With the buffer's length as its fuel, the loop over the statements of the buffer runs to its end: it
  -- stops at an error, or with no semicolon in the buffer.
  pub drain-Lacks :
      (lineno : ℕ) (r : Reader P) {next : Reader P}
      → drain P (length r.buf) lineno r ≡ ok next
      → Lacks (λ c. c == b';') next.buf
  drain-Lacks lineno r h = Returns-ok _ h (drain-Returns (length r.buf) lineno r (omega arith))
