-- ===== src/Boot/Connect/Once.antt =====
-- Which controllers are connected, and how often.
use odp_platform_common.Common.{
  ℕ, zero, suc, ◌+◌, ◌≤◌, true, false, List, [], ◌∷◌, ◌++◌, Memᴰ, length, contains, contains_iff,
  ◌==◌, ==_iff, Bool-cases, inl, inr, ◌≡◌, ◌≢◌, ◌⊎◌, refl, sym, subst, ap, ◌∙◌, arith,
}
use odp_platform_common.Common.Result.{Result, Result-cases, ok}
use odp_platform_common.Boot.Firmware.{
  EfiError, all_handles, locate_handles, connect, History, Firmware,
}
use odp_platform_common.Boot.Connect.{
  locate_all, connect_one, connect_pass, connect_passes, connect_all,
}

-- The handles of the calls that connect a controller, the last one first.
unfoldable pub connections : {DevicePath : Type 0} → History DevicePath → List ℕ
connections [] = []
connections (connect handle recursive ∷ h) = handle ∷ connections h
connections (c ∷ h) = connections h

-- No handle occurs twice.
pub data Distinct : List ℕ → Type 0 where
  empty : Distinct []
  fresh :
      {handle : ℕ} {handles : List ℕ}
      → contains handles handle ≡ false
      → Distinct handles
      → Distinct (handle ∷ handles)

abbrev pub Within : List ℕ → List ℕ → Type 0
Within xs ys = (n : ℕ) → Memᴰ n xs → Memᴰ n ys

count_up : (a b c d : ℕ) → a + suc b ≡ suc c + d → a + b ≡ c + d
count_up a b c d e = omega arith

up : (a b : ℕ) → suc a ≤ b → a ≤ b
up a b h = omega arith

up_ne : (a b : ℕ) → suc a ≤ b → b ≢ a
up_ne a b h e = absurd (omega arith)

further :
    (a b c left newly : ℕ)
    → (newly == 0) ≡ false
    → b + 0 ≡ a + newly
    → b + left ≤ c
    → a + suc left ≤ c
further a b c left newly some e h = ground arith

module _ {DevicePath : Type 0} (fw : Firmware DevicePath) (past : History DevicePath) where
  -- Since `past`, the handles of the set were connected, each once.
  abbrev pub Visited : List ℕ → History DevicePath → Type 0
  Visited connected h = (connections h ≡ connected ++ connections past) × Distinct connected

  -- What a pass leaves: the set has grown by the new handles, and has all that were located.
  abbrev PassDone :
      List ℕ → List ℕ → ℕ → History DevicePath × (List ℕ × ℕ) → History DevicePath → Type 0
  PassDone handles connected newly (h', (connected', newly')) h =
      Visited connected' h'
      × Within connected connected'
      × Within handles connected'
      × (length connected' + newly ≡ length connected + newly')
      × (newly ≤ newly')
      × ((newly' ≡ newly) → (h' ≡ h) × (connected' ≡ connected))

  connect_pass-Done :
      (handles connected : List ℕ) (newly : ℕ) (h : History DevicePath)
      → Visited connected h
      → PassDone handles connected newly (connect_pass fw handles connected newly h) h
  unfolding connect_pass connect_one connections
  connect_pass-Done [] connected newly h v =
      (v, (λ n m. m), (λ n m. elim m [ ]), refl, omega arith, λ _. (refl, refl))
  connect_pass-Done (handle ∷ handles) connected newly h v =
      elim (Bool-cases (contains connected handle)) [
        | inl old ↦
            let (visited, kept, rest, count, more, quiet) =
              connect_pass-Done handles connected newly h v in
            rw (connect_pass, old)
              (
                visited,
                kept,
                (λ n m. elim m [
                  | Memᴰ.head e ↦ kept n (
                      subst (λ t. Memᴰ t connected) (sym e) ((contains_iff handle connected).0 old))
                  | Memᴰ.tail m' ↦ rest n m'
                ]),
                count,
                more,
                quiet,
              )
        | inr new ↦
            let (visited, kept, rest, count, more, quiet) =
              connect_pass-Done handles (handle ∷ connected) (suc newly) (connect handle true ∷ h)
                (ap (λ t. handle ∷ t) v.0, fresh new v.1) in
            rw (connect_pass, new)
              (
                visited,
                (λ n m. kept n (Memᴰ.tail m)),
                (λ n m. elim m [ Memᴰ.head e ↦ kept n (Memᴰ.head e) | Memᴰ.tail m' ↦ rest n m' ]),
                count_up _ _ _ _ count,
                up _ _ more,
                (λ same. absurd (up_ne _ _ more same)),
              )
      ]

  -- What the passes leave: the set they connected, and either a last pass that located handles all
  -- of which had been connected, or that many passes which each connected a new one.
  abbrev pub PassesDone : ℕ → List ℕ → History DevicePath → Type 0
  PassesDone left connected h =
      (connected' : List ℕ) × Visited connected' h
      × (((before : History DevicePath) × (handles : List ℕ) × (h
              ≡ locate_handles all_handles ∷ before)
            × (fw.locate_handle_buffer before all_handles ≡ ok handles)
            × Within handles connected')
          ⊎ (length connected + left ≤ length connected'))

  connect_passes-Done :
      (left : ℕ) (connected : List ℕ) (h h' : History DevicePath)
      → Visited connected h
      → connect_passes fw left connected h ≡ (h', ok tt)
      → PassesDone left connected h'
  unfolding connect_passes locate_all connections
  connect_passes-Done zero connected h h' v e =
      (connected, subst (Visited connected) (ap (λ r. r.0) e) v, inr (omega arith))
  connect_passes-Done (suc left) connected h h' v e =
      let asked = locate_handles all_handles ∷ h in
      elim (Result-cases (fw.locate_handle_buffer h all_handles)) [
        | inr (_, same) ↦
            let failure : ◌≡◌ {A = History DevicePath × Result (Unit {0}) EfiError} _ (h', ok tt) =
              rw (connect_passes, same) at e in
            cc (ap (λ r. r.1) failure)
        | inl (handles, same) ↦
            let (h'', (connected', newly)) = connect_pass fw handles connected 0 asked in
            let (visited, kept, rest, count, more, quiet) =
              connect_pass-Done handles connected 0 asked v in
            elim (Bool-cases (newly == 0)) [
              | inl none_new ↦
                  let last : ◌≡◌ {A = History DevicePath × Result (Unit {0}) EfiError} _
                      (h', ok tt) =
                    rw (connect_passes, same, none_new) at e in
                  let stayed = sym (ap (λ r. r.0) last) ∙ (quiet ((==_iff newly 0).0 none_new)).0 in
                  (
                    connected',
                    subst (Visited connected') (ap (λ r. r.0) last) visited,
                    inl (h, handles, stayed, same, rest),
                  )
              | inr some_new ↦
                  let later : connect_passes fw left connected' h'' ≡ (h', ok tt) =
                    rw (connect_passes, same, some_new) at e in
                  let (all, visited', cases) =
                    connect_passes-Done left connected' h'' h' visited later in
                  (
                    all,
                    visited',
                    elim cases [
                      | inl settled ↦ inl settled
                      | inr many ↦ inr (further _ _ _ left newly some_new count many)
                    ],
                  )
            ]
      ]

-- When the connection of all controllers succeeds, no handle was connected twice by it. Either its
-- last call located handles all of which it had connected, or it connected at least ten.
pub connect_all-Done :
    {DevicePath : Type 0} (fw : Firmware DevicePath) (h h' : History DevicePath)
    → connect_all fw h ≡ (h', ok tt)
    → PassesDone fw h 10 [] h'
unfolding connect_all
connect_all-Done fw h h' e = connect_passes-Done fw h 10 [] h h' (refl, empty) e
