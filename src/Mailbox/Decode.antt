-- ===== src/Mailbox/Decode.antt =====
-- Which mailboxes decode, and to what.
use odp_platform_common.Common.{
  ℕ, ◌+◌, ◌≤◌, true, false, List, some, length, take, drop, length-take, length-drop, take-take,
  ltb, ◌==◌, ==_iff, ◌≡◌, ◌↔◌, refl, sym, ap, ◌∙◌, arith,
}
use odp_platform_common.Common.Result.{
  Result, ok, ◌>>=◌, ok_or_iff, >>=-ok, >>=-eq-ok, check-ok, ok-injective,
}
use odp_platform_common.Mailbox.{
  MailboxError, UsbPd, from_le_bytes, slice, check_cci, validate, message_in, decode_capability,
  decode_connector_capability, decode_connector_status,
}

pub slice-within :
    (bytes : List ℕ) (start len : ℕ)
    → start + len ≤ length bytes
    → slice bytes start len ≡ ok (take len (drop start bytes))
unfolding slice
slice-within bytes start len h =
    let long : ltb (length bytes) (start + len) ≡ false = ground arith in rw long refl

-- The little-endian number of some bytes of a mailbox.
abbrev pub field_at : List ℕ → ℕ → ℕ → ℕ
field_at bytes start len = from_le_bytes (take len (drop start bytes))

module _ (U : UsbPd) where
  -- A mailbox of 48 bytes whose status word says that the command is complete, is no error, and is
  -- supported.
  pub record Completed (bytes : List ℕ) : Type 0 where
    pub sized : length bytes ≡ 48
    pub no_error : U.error (field_at bytes 4 4) ≡ false
    pub supported : U.not_supported (field_at bytes 4 4) ≡ false
    pub complete : U.cmd_complete (field_at bytes 4 4) ≡ true

  -- A completed mailbox of UCSI 1.2 that reports a payload of this length.
  pub record Carries (len : ℕ) (bytes : List ℕ) : Type 0 where
    pub completed : Completed bytes
    pub version : field_at bytes 0 2 ≡ 0x0120
    pub reported : U.data_len (field_at bytes 4 4) ≡ len

  check_cci_iff :
      (version cci : ℕ) (r : ℕ × ℕ)
      → (check_cci U version cci ≡ ok r) ↔ (
          (U.error cci ≡ false)
          × (U.not_supported cci ≡ false)
          × (U.cmd_complete cci ≡ true)
          × ((version, U.data_len cci) ≡ r))
  unfolding check_cci
  check_cci_iff version cci r = (ground arith, ground arith)

  -- Behind the test of the length, the fields are read in range.
  validate-sized :
      (bytes : List ℕ)
      → length bytes ≡ 48
      → validate U bytes ≡ check_cci U (field_at bytes 0 2) (field_at bytes 4 4)
  unfolding validate
  validate-sized bytes h =
      let yes : (length bytes == 48) ≡ true = ground arith in
      rw (yes, slice-within bytes 0 2 (omega arith), slice-within bytes 4 4 (omega arith)) refl

  validate-length : (bytes : List ℕ) {r : ℕ × ℕ} → validate U bytes ≡ ok r → length bytes ≡ 48
  unfolding validate
  validate-length bytes h = (==_iff _ _).0 (check-ok (length bytes == 48) _ _ h).0

  -- Validation succeeds exactly on the completed mailboxes, with their version and the length that
  -- their status word reports.
  pub validate_iff :
      (bytes : List ℕ) (version actual : ℕ)
      → (validate U bytes ≡ ok (version, actual)) ↔ (
          Completed bytes
          × (field_at bytes 0 2 ≡ version)
          × (U.data_len (field_at bytes 4 4) ≡ actual))
  validate_iff bytes version actual = (
    λ h.
        let sized = validate-length bytes h in
        let (e, n, c, r) = (check_cci_iff _ _ _).0 (sym (validate-sized bytes sized) ∙ h) in
        (
          record { sized = sized; no_error = e; supported = n; complete = c },
          ap (λ p. p.0) r,
          ap (λ p. p.1) r,
        ),
    λ h.
        let (m, v, a) = h in
        validate-sized bytes m.sized
        ∙ (check_cci_iff _ _ _).1 (m.no_error, m.supported, m.complete, rw (v, a) refl),
  )

  -- With at most 32 bytes expected, the payload of a mailbox is returned exactly when it carries that
  -- many, and it is the bytes from the sixteenth on.
  pub message_in_iff :
      (bytes : List ℕ) (expected : ℕ) (payload : List ℕ)
      → expected ≤ 32
      → (message_in U bytes expected ≡ ok payload)
        ↔ (Carries expected bytes × (take expected (drop 16 bytes) ≡ payload))
  unfolding message_in
  message_in_iff bytes expected payload small = (
    λ h.
        let (r, valid, rest) = >>=-eq-ok (validate U bytes) _ h in
        let (m, v, a) = (validate_iff bytes r.0 r.1).0 valid in
        let (one, rest') = check-ok (r.0 == 0x0120) _ _ rest in
        let (two, cut) = check-ok (r.1 == expected) _ _ rest' in
        let inside = slice-within bytes 16 expected (omega (arith, m.sized)) in
        (
          record {
            completed = m;
            version = v ∙ (==_iff _ _).0 one;
            reported = a ∙ (==_iff _ _).0 two;
          },
          ok-injective (sym inside ∙ cut),
        ),
    λ h.
        let (c, e) = h in
        let valid = (validate_iff bytes 0x0120 expected).1 (c.completed, c.version, c.reported) in
        let same : (expected == expected) ≡ true = (==_iff _ _).1 refl in
        let inside = slice-within bytes 16 expected (omega (arith, c.completed.sized)) in
        >>=-ok (validate U bytes) _ valid ∙ rw same (inside ∙ ap ok e),
  )

  -- The payload of a mailbox that carries one of this length.
  abbrev pub payload_of : ℕ → List ℕ → List ℕ
  payload_of len bytes = take len (drop 16 bytes)

  decoded_iff :
      {A : Type 0} (bytes : List ℕ) (len : ℕ) (f : List ℕ → Result A MailboxError) (a : A)
      → len ≤ 32
      → ((message_in U bytes len >>= f) ≡ ok a)
        ↔ (Carries len bytes × (f (payload_of len bytes) ≡ ok a))
  decoded_iff bytes len f a small = (
    λ h.
        let (payload, taken, rest) = >>=-eq-ok (message_in U bytes len) f h in
        let (c, e) = (message_in_iff bytes len payload small).0 taken in (c, rw e rest),
    λ h. >>=-ok (message_in U bytes len) f ((message_in_iff bytes len _ small).1 (h.0, refl)) ∙ h.1,
  )

  -- A response of at most 32 bytes decodes exactly when the mailbox carries one of its length and the
  -- decoder of the response accepts its bytes: the capabilities, and the status of a connector.
  pub decode_iff :
      (bytes : List ℕ) (c : U.Capability) (s : U.ConnectorStatus)
      → U.capability_len ≤ 32
      → U.connector_status_len ≤ 32
      → ((decode_capability U bytes ≡ ok c) ↔ (
          Carries U.capability_len bytes
          × (U.decode_capability (payload_of U.capability_len bytes) ≡ some c)))
        × ((decode_connector_status U bytes ≡ ok s) ↔ (
            Carries U.connector_status_len bytes
            × (U.decode_connector_status (payload_of U.connector_status_len bytes) ≡ some s)))
  unfolding decode_capability decode_connector_status
  decode_iff bytes c s small small' = (
    (
      λ h. let (m, d) = (decoded_iff bytes _ _ c small).0 h in (m, (ok_or_iff _ _ _).0 d),
      λ h. (decoded_iff bytes _ _ c small).1 (h.0, (ok_or_iff _ _ _).1 h.1),
    ),
    (
      λ h. let (m, d) = (decoded_iff bytes _ _ s small').0 h in (m, (ok_or_iff _ _ _).0 d),
      λ h. (decoded_iff bytes _ _ s small').1 (h.0, (ok_or_iff _ _ _).1 h.1),
    ),
  )

  word_of : List ℕ → Result U.ConnectorCapability MailboxError
  word_of payload = do word ← slice payload 0 2; ok (U.connector_capability_of (from_le_bytes word))

  word_of-payload :
      (bytes : List ℕ)
      → length bytes ≡ 48
      → word_of (payload_of 2 bytes) ≡ ok (U.connector_capability_of (field_at bytes 16 2))
  unfolding word_of
  word_of-payload bytes sized =
      let long : 2 ≤ length (payload_of 2 bytes) =
        omega (arith, length-take 2 (drop 16 bytes), length-drop 16 bytes) in
      >>=-ok (slice (payload_of 2 bytes) 0 2) _ (slice-within (payload_of 2 bytes) 0 2 long)
      ∙ ap (λ w. ok (U.connector_capability_of (from_le_bytes w))) (take-take 2 (drop 16 bytes))

  -- A connector's capabilities, of two bytes, decode exactly when the mailbox carries them: they are
  -- the little-endian word of the two.
  pub decode_connector_capability_iff :
      (bytes : List ℕ) (c : U.ConnectorCapability)
      → U.connector_capability_len ≡ 2
      → (decode_connector_capability U bytes ≡ ok c)
        ↔ (Carries 2 bytes × (U.connector_capability_of (field_at bytes 16 2) ≡ c))
  unfolding decode_connector_capability word_of
  decode_connector_capability_iff bytes c two =
      let by_word : decode_connector_capability U bytes ≡ (message_in U bytes 2 >>= word_of) =
        ap (λ n. message_in U bytes n >>= word_of) two in
      (
        λ h.
            let (m, d) = (decoded_iff bytes 2 word_of c (omega arith)).0 (sym by_word ∙ h) in
            (m, ok-injective (sym (word_of-payload bytes m.completed.sized) ∙ d)),
        λ h.
            by_word
            ∙ (decoded_iff bytes 2 word_of c (omega arith)).1
                (h.0, word_of-payload bytes h.0.completed.sized ∙ ap ok h.1),
      )
