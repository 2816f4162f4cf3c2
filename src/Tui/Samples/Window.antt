-- ===== src/Tui/Samples/Window.antt =====
-- What a buffer holds after any number of samples.
use odp_platform_common.Common.{
  ℕ, zero, suc, ◌+◌, ◌-◌, ◌^◌, ◌≤◌, ◌<◌, Bool-cases, inl, inr, true, false, List, [], ◌∷◌, ◌++◌,
  append_assoc, append-nil, length, length-append, length-drop, drop, All, ltb, ◌==◌, if◌then◌else◌,
  ◌≡◌, refl, sym, ap, ◌∙◌, arith,
}
use odp_platform_common.Script.Platform.{Platform}
use odp_platform_common.Serial.Device.{Float}
use odp_platform_common.Tui.Samples.{
  SessionStats, SampleBuf, stats_default, record_value, buf_default, push_sample, insert,
}

module _ {T : Type 0} where
  drop-append : (n : ℕ) (xs ys : List T) → n ≤ length xs → drop n (xs ++ ys) ≡ drop n xs ++ ys
  drop-append zero xs ys h = refl
  drop-append (suc n) [] ys h = absurd (omega arith)
  drop-append (suc n) (x ∷ xs) ys h = drop-append n xs ys (omega arith)

  drop-drop : (n : ℕ) (xs : List T) → drop 1 (drop n xs) ≡ drop (suc n) xs
  drop-drop zero xs = refl
  drop-drop (suc n) [] = refl
  drop-drop (suc n) (x ∷ xs) = drop-drop n xs

  drop-nil : (n : ℕ) → ◌≡◌ {A = List T} [] (drop n [])
  drop-nil zero = refl
  drop-nil (suc n) = refl

  -- The last samples of a sequence, as many as the bound.
  abbrev pub window : ℕ → List T → List T
  window bound xs = drop (length xs - bound) xs

module _ {P : Platform} (N : Float P) {T : Type 0} (into : T → P.F) (bound : ℕ) where
  open P use {F, lt}

  -- The samples inserted one after the other.
  unfoldable pub insert_all : List T → SampleBuf P T → SampleBuf P T
  insert_all [] buf = buf
  insert_all (x ∷ xs) buf = insert_all xs (insert N into bound x buf)

  push_sample-window :
      (xs : List T) (x : T) → push_sample N bound x (window bound xs) ≡ window bound (xs ++ x ∷ [])
  push_sample-window xs x =
      let size = length-drop (length xs - bound) xs in
      let added = length-append (window bound xs) (x ∷ []) in
      let longer = length-append xs (x ∷ []) in
      let joined = drop-append (length xs - bound) xs (x ∷ []) (omega arith) in
      elim (Bool-cases (ltb bound (length (window bound xs ++ x ∷ [])))) [
        | inl full ↦
            let amount : length (xs ++ x ∷ []) - bound ≡ suc (length xs - bound) =
              ground (arith, size, added, longer) in
            rw full (
              ap (drop 1) (sym joined)
              ∙ drop-drop (length xs - bound) (xs ++ x ∷ [])
              ∙ ap (λ n. drop n (xs ++ x ∷ [])) (sym amount))
        | inr room ↦
            let amount : length (xs ++ x ∷ []) - bound ≡ length xs - bound =
              ground (arith, size, added, longer) in
            rw room (sym joined ∙ ap (λ n. drop n (xs ++ x ∷ [])) (sym amount))
      ]

  insert_all-after :
      (xs seen : List T) (buf : SampleBuf P T)
      → buf.samples ≡ window bound seen
      → (insert_all xs buf).samples ≡ window bound (seen ++ xs)
  unfolding insert_all insert
  insert_all-after [] seen buf e = e ∙ ap (window bound) (sym (append-nil seen))
  insert_all-after (x ∷ xs) seen buf e =
      insert_all-after xs (seen ++ x ∷ []) (insert N into bound x buf)
        (ap (push_sample N bound x) e ∙ push_sample-window seen x)
      ∙ ap (window bound) (append_assoc seen (x ∷ []) xs)

  -- The order of `f64` on numbers other than NaN.
  pub record Ordered (IsNumber : F → Type 0) : Type 0 where
    pub irreflexive : (a : F) → IsNumber a → lt a a ≡ false
    pub asymmetric : (a b : F) → IsNumber a → IsNumber b → lt a b ≡ true → lt b a ≡ false
    -- Where a ≤ b is that b is not less than a.
    pub transitive :
        (a b c : F)
        → IsNumber a
        → IsNumber b
        → IsNumber c
        → lt b a ≡ false
        → lt c b ≡ false
        → lt c a ≡ false

  -- No value is less than the minimum or greater than the maximum.
  abbrev pub Between : F → F → F → Type 0
  Between low high v = (lt v low ≡ false) × (lt high v ≡ false)

  module _ (IsNumber : F → Type 0) (order : Ordered IsNumber) where
    -- The statistics of so many values.
    pub record Covers (s : SessionStats P) (values : List F) : Type 0 where
      pub count_is : s.count ≡ length values
      pub min_is : IsNumber s.min
      pub max_is : IsNumber s.max
      pub between : All (Between s.min s.max) values

    widen :
        (values : List F) (low high low' high' : F)
        → ((v : F) → IsNumber v → Between low high v → Between low' high' v)
        → All IsNumber values
        → All (Between low high) values
        → All (Between low' high') values
    widen [] low high low' high' f n b = tt
    widen (v ∷ values) low high low' high' f (n, ns) (b, bs) =
        (f v n b, widen values low high low' high' f ns bs)

    -- The lesser of two, and the greater.
    lower_below :
        (v m : F)
        → IsNumber v
        → IsNumber m
        → let lower = if lt v m then v else m in
          IsNumber lower
          × (lt v lower ≡ false)
          × ((u : F) → IsNumber u → lt u m ≡ false → lt u lower ≡ false)
    lower_below v m n k = elim (Bool-cases (lt v m)) [
      | inl less ↦ rw less (
        n,
        order.irreflexive v n,
        λ u j above. order.transitive v m u n k j (order.asymmetric v m n k less) above,
      )
      | inr more ↦ rw more (k, more, λ u j above. above)
    ]

    upper_above :
        (v m : F)
        → IsNumber v
        → IsNumber m
        → let upper = if lt m v then v else m in
          IsNumber upper
          × (lt upper v ≡ false)
          × ((u : F) → IsNumber u → lt m u ≡ false → lt upper u ≡ false)
    upper_above v m n k = elim (Bool-cases (lt m v)) [
      | inl more ↦ rw more (
        n,
        order.irreflexive v n,
        λ u j below. order.transitive u m v j k n below (order.asymmetric m v k n more),
      )
      | inr less ↦ rw less (k, less, λ u j below. below)
    ]

    first-Covers :
        (v : F) (s : SessionStats P)
        → IsNumber v
        → s.count ≡ 0
        → Covers (record_value N v s) (v ∷ [])
    unfolding record_value
    first-Covers v s n zero_count =
        let test : (s.count == 0) ≡ true = ground arith in
        rw test (record {
          count_is = omega arith;
          min_is = n;
          max_is = n;
          between = ((order.irreflexive v n, order.irreflexive v n), tt);
        })

    next-Covers :
        (v w : F) (values : List F) (s : SessionStats P)
        → IsNumber v
        → All IsNumber (w ∷ values)
        → length (v ∷ w ∷ values) < 2 ^ 64
        → Covers s (w ∷ values)
        → Covers (record_value N v s) (v ∷ w ∷ values)
    unfolding record_value
    next-Covers v w values s n ns small c =
        let counted = c.count_is in
        let test : (s.count == 0) ≡ false = ground arith in
        let (min_number, min_bounds, min_stays) = lower_below v s.min n c.min_is in
        let (max_number, max_bounds, max_stays) = upper_above v s.max n c.max_is in
        rw test (record {
          count_is = omega arith;
          min_is = min_number;
          max_is = max_number;
          between = (
            (min_bounds, max_bounds),
            widen (w ∷ values) s.min s.max _ _ (λ u j b. (min_stays u j b.0, max_stays u j b.1)) ns
                c.between,
          );
        })

    -- The values recorded, the last one first.
    abbrev pub latest_first : List T → List F → List F
    latest_first [] seen = seen
    latest_first (x ∷ xs) seen = latest_first xs (into x ∷ seen)

    insert_all-Covers :
        (xs : List T) (v : F) (seen : List F) (buf : SampleBuf P T)
        → All (λ x. IsNumber (into x)) xs
        → All IsNumber (v ∷ seen)
        → length xs + length (v ∷ seen) < 2 ^ 64
        → Covers buf.stats (v ∷ seen)
        → Covers (insert_all xs buf).stats (latest_first xs (v ∷ seen))
    unfolding insert_all insert
    insert_all-Covers [] v seen buf ns ms small c = c
    insert_all-Covers (x ∷ xs) v seen buf (n, ns) ms small c =
        insert_all-Covers xs (into x) (v ∷ seen) (insert N into bound x buf) ns (n, ms)
          (omega arith) (next-Covers (into x) v seen buf.stats n ms (omega arith) c)

    -- After any number of samples that are numbers, at least one and fewer than 2 ^ 64, a buffer holds
    -- the last of them, as many as its bound, and its statistics count all of them: none of them,
    -- also of those no longer held, is less than the minimum or greater than the maximum.
    pub insert_all-Window :
        (x : T) (xs : List T)
        → All (λ y. IsNumber (into y)) (x ∷ xs)
        → length (x ∷ xs) < 2 ^ 64
        → ((insert_all (x ∷ xs) (buf_default N)).samples ≡ window bound (x ∷ xs))
          × Covers (insert_all (x ∷ xs) (buf_default N)).stats (latest_first (x ∷ xs) [])
    unfolding insert_all insert buf_default stats_default
    insert_all-Window x xs (n, ns) small = (
      insert_all-after (x ∷ xs) [] (buf_default N) (drop-nil (0 - bound)),
      insert_all-Covers xs (into x) [] (insert N into bound x (buf_default N)) ns (n, tt)
          (omega arith) (first-Covers (into x) (stats_default N) n refl),
    )
