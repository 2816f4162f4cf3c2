-- ===== src/Mailbox/Envelope.antt =====
-- A mailbox taken out of the FF-A envelope, or returned directly.
use odp_platform_common.Common.{
  ℕ, zero, suc, ◌+◌, ◌≤◌, Bool, true, false, not, List, [], ◌∷◌, ◌++◌, length, length-append,
  append_assoc, length-take, length-drop, take, drop, ◌==◌, ==_iff, if◌then◌else◌, ◌≡◌, refl, sym,
  ap, ◌∙◌, arith,
}
use odp_platform_common.Common.Result.{
  Result, ok, err, ok-injective, >>=-ok, Returns, returned, refused, Returns-ok, Returns-of,
  Returns-if, Returns->>=,
}
use odp_platform_common.Mailbox.{
  MailboxError, ffa_status, wrong_length, from_le_bytes, slice, normalize_acpi_response,
}
use odp_platform_common.Mailbox.Decode.{slice-within}

take-append : (xs ys : List ℕ) (n : ℕ) → length xs ≡ n → take n (xs ++ ys) ≡ xs
take-append [] ys zero e = refl
take-append [] ys (suc n) e = absurd (omega arith)
take-append (x ∷ xs) ys zero e = absurd (omega arith)
take-append (x ∷ xs) ys (suc n) e = ap (◌∷◌ x) (take-append xs ys n (omega arith))

drop-append : (xs ys : List ℕ) (n : ℕ) → length xs ≡ n → drop n (xs ++ ys) ≡ ys
drop-append [] ys zero e = refl
drop-append [] ys (suc n) e = absurd (omega arith)
drop-append (x ∷ xs) ys zero e = absurd (omega arith)
drop-append (x ∷ xs) ys (suc n) e = drop-append xs ys n (omega arith)

if_not :
    (b : Bool) (e : MailboxError) {r : Result (List ℕ) MailboxError} {m : List ℕ}
    → r ≡ ok m
    → (if not b then err e else r) ≡ (if b then ok m else err e)
if_not true e h = h
if_not false e h = refl

-- The parts of an envelope: the status, what stands before the mailbox, the mailbox, and the rest.
pub record Envelope : Type 0 where
  pub status : List ℕ
  pub before : List ℕ
  pub mailbox : List ℕ
  pub behind : List ℕ
  pub status_sized : length status ≡ 8
  pub before_sized : length before ≡ 24
  pub mailbox_sized : length mailbox ≡ 48
  pub behind_sized : length behind ≡ 64

module _ (e : Envelope) where
  abbrev pub bytes_of : List ℕ
  bytes_of = e.status ++ (e.before ++ (e.mailbox ++ e.behind))

  envelope-length : length bytes_of ≡ 144
  envelope-length = omega (
    arith,
    e.status_sized,
    e.before_sized,
    e.mailbox_sized,
    e.behind_sized,
    length-append e.status (e.before ++ (e.mailbox ++ e.behind)),
    length-append e.before (e.mailbox ++ e.behind),
    length-append e.mailbox e.behind,
  )

  status_slice : slice bytes_of 0 8 ≡ ok e.status
  status_slice =
      slice-within bytes_of 0 8 (omega (arith, envelope-length))
      ∙ ap ok (take-append e.status _ 8 e.status_sized)

  behind_header : drop 32 bytes_of ≡ e.mailbox ++ e.behind
  behind_header =
      ap (drop 32) (sym (append_assoc e.status e.before (e.mailbox ++ e.behind)))
      ∙ drop-append (e.status ++ e.before) (e.mailbox ++ e.behind) 32
          (omega (arith, length-append e.status e.before, e.status_sized, e.before_sized))

  mailbox_slice : slice bytes_of 32 48 ≡ ok e.mailbox
  mailbox_slice =
      slice-within bytes_of 32 48 (omega (arith, envelope-length))
      ∙ ap ok (ap (take 48) behind_header ∙ take-append e.mailbox e.behind 48 e.mailbox_sized)

  -- The mailbox of an envelope of FF-A is returned when its status is 0, and its status is the error
  -- otherwise; what stands around the mailbox does not matter.
  pub normalize_acpi_response-Envelope : normalize_acpi_response bytes_of ≡ (
      if from_le_bytes e.status == 0
      then ok e.mailbox
      else err (ffa_status (from_le_bytes e.status)))
  unfolding normalize_acpi_response
  normalize_acpi_response-Envelope =
      let other : (length bytes_of == 48) ≡ false = ground (arith, envelope-length) in
      let whole : (length bytes_of == 144) ≡ true = ground (arith, envelope-length) in
      rw (other, whole)
        (>>=-ok (slice bytes_of 0 8) _ status_slice
          ∙ if_not (from_le_bytes e.status == 0) _ mailbox_slice)

slice-length :
    (bytes : List ℕ) (start len : ℕ) {m : List ℕ}
    → start + len ≤ length bytes
    → slice bytes start len ≡ ok m
    → length m ≡ len
slice-length bytes start len h e =
    let cut = ok-injective (sym (slice-within bytes start len h) ∙ e) in
    ap length (sym cut) ∙ omega (arith, length-take len (drop start bytes), length-drop start bytes)

normalize_acpi_response-Returns :
    (bytes : List ℕ) → Returns (λ m. length m ≡ 48) (normalize_acpi_response bytes)
unfolding normalize_acpi_response
normalize_acpi_response-Returns bytes =
    Returns-if (length bytes == 48) (λ h. returned ((==_iff _ _).0 h))
      λ _.
        Returns-if (length bytes == 144) {y = err (wrong_length (length bytes))}
          (λ whole. Returns->>= (slice bytes 0 8) λ status _.
            Returns-if (not (from_le_bytes status == 0))
              {x = err (ffa_status (from_le_bytes status))} (λ _. refused)
              λ _.
                Returns-of (slice bytes 32 48)
                  (λ m. slice-length bytes 32 48 (omega (arith, (==_iff _ _).0 whole))))
          (λ _. refused)

-- What is returned, of a response of any length, has the 48 bytes of a mailbox.
pub normalize_acpi_response-length :
    (bytes : List ℕ) {m : List ℕ} → normalize_acpi_response bytes ≡ ok m → length m ≡ 48
normalize_acpi_response-length bytes h = Returns-ok _ h (normalize_acpi_response-Returns bytes)
