-- ===== src/Boot/Connect/Settles.antt =====
-- The connections and dispatches come to an end.
use odp_platform_common.Common.{
  ℕ, zero, suc, ◌+◌, ◌≤◌, ◌<◌, some, List, [], ◌∷◌, ◌++◌, append_assoc, length, ◌==◌, ==_iff,
  Bool-cases, inl, inr, ◌≡◌, ◌≢◌, refl, sym, subst, ap, ◌∙◌, arith,
}
use odp_platform_common.Common.Result.{Result, Result-cases, ok, err, map_ok, ok-injective}
use odp_platform_common.Common.Action.{Ends, Ends-ok, Ends-of, Ends-bind}
use odp_platform_common.Boot.Firmware.{
  EfiError, all_handles, Call, locate_handles, dispatch, History, Firmware, Boot,
}
use odp_platform_common.Boot.Connect.{
  locate_all, total_handle_count, dispatch_once, connect_round, interleave_rounds,
  interleave_connect_and_dispatch,
}

module _ {DevicePath : Type 0} (fw : Firmware DevicePath) where
  -- After this history there are so many handles.
  abbrev pub Counted : History DevicePath → ℕ → Type 0
  Counted h count =
      (handles : List ℕ) × (fw.locate_handle_buffer h all_handles ≡ ok handles)
      × (length handles ≡ count)

  -- One history is another with more calls.
  abbrev pub Later : History DevicePath → History DevicePath → Type 0
  Later h past = (calls : List (Call DevicePath)) × (h ≡ calls ++ past)

  Later-trans : {a b c : History DevicePath} → Later a b → Later b c → Later a c
  Later-trans {c} (calls, e) (calls', e') =
      (calls ++ calls', e ∙ ap (λ t. calls ++ t) e' ∙ sym (append_assoc calls calls' c))

  located-Counted :
      (h : History DevicePath) (count : ℕ)
      → map_ok length (fw.locate_handle_buffer h all_handles) ≡ ok count
      → Counted h count
  located-Counted h count e = elim (Result-cases (fw.locate_handle_buffer h all_handles)) [
    | inl (handles, same) ↦
        let sized : ◌≡◌ {A = Result ℕ EfiError} (ok (length handles)) (ok count) = rw same at e in
        (handles, same, ok-injective sized)
    | inr (failure, same) ↦
        let impossible : ◌≡◌ {A = Result ℕ EfiError} (err failure) (ok count) = rw same at e in cc
  ]

  module _ (connect_fn : Boot DevicePath (Unit {0}))
      (extends : (h : History DevicePath) → Later (connect_fn h).0 h) where
    connect_round-Counted :
        (h : History DevicePath)
        → Ends
            (λ h' count. (at : History DevicePath) × Counted at count × Later at h × Later h' at)
            (connect_round fw connect_fn h)
    unfolding connect_round dispatch_once total_handle_count locate_all
    connect_round-Counted h = Ends-bind (connect_fn h) _ λ h' _ connected.
        Ends-bind (dispatch ∷ h', fw.dispatch_drivers h') _
          λ h'' _ dispatched.
            Ends-of
              (
                locate_handles all_handles ∷ h'',
                map_ok length (fw.locate_handle_buffer h'' all_handles),
              )
              λ last count e.
                let first = subst (λ t. Later t h) (ap (λ r. r.0) connected) (extends h) in
                let second : Later h'' h' = (dispatch ∷ [], sym (ap (λ r. r.0) dispatched)) in
                (
                  h'',
                  located-Counted h'' count (ap (λ r. r.1) e),
                  Later-trans second first,
                  (locate_handles all_handles ∷ [], sym (ap (λ r. r.0) e)),
                )

    module _ (most : ℕ)
        (bounded : (h : History DevicePath) (count : ℕ) → Counted h count → count ≤ most)
        (lasting : (h past : History DevicePath) (count before : ℕ)
          → Later h past
          → Counted past before
          → Counted h count
          → before ≤ count) where
      interleave_rounds-Settles :
          (fuel previous : ℕ) (past h : History DevicePath)
          → Counted past previous
          → Later h past
          → most < fuel + previous
          → (r : Result (Unit {0}) EfiError) × ((interleave_rounds fw connect_fn fuel previous h).1
              ≡ some r)
      unfolding interleave_rounds
      interleave_rounds-Settles zero previous past h counted later enough =
          absurd (omega (arith, bounded past previous counted))
      interleave_rounds-Settles (suc fuel) previous past h counted later enough =
          let (h', result) = connect_round fw connect_fn h in
          elim (Result-cases result) [
            | inr (e, same) ↦ (err e, rw (interleave_rounds, same) refl)
            | inl (current, same) ↦ elim (Bool-cases (current == previous)) [
              | inl stable ↦ (ok tt, rw (interleave_rounds, same, stable) refl)
              | inr grown ↦
                  let (at, counted', later', after) =
                    Ends-ok (connect_round fw connect_fn h) (ap (λ r. (h', r)) same)
                      (connect_round-Counted h) in
                  let more =
                    lasting at past current previous (Later-trans later' later) counted counted' in
                  let other : current ≢ previous = λ e. cc (grown, (==_iff current previous).1 e) in
                  let (r, ends) =
                    interleave_rounds-Settles fuel current at h' counted' after (omega arith) in
                  (r, rw (interleave_rounds, same, grown) ends)
            ]
          ]

      -- Where connecting only adds calls, there are never more than `most` handles, and a later
      -- count of them is no smaller than an earlier one, the rounds of connecting and dispatching
      -- end: more fuel than `most` gives a result.
      pub interleave_connect_and_dispatch-Settles :
          (fuel : ℕ) (h : History DevicePath)
          → most < fuel
          → (r : Result (Unit {0}) EfiError) × ((interleave_connect_and_dispatch fw connect_fn fuel
                h).1
              ≡ some r)
      unfolding interleave_connect_and_dispatch total_handle_count locate_all
      interleave_connect_and_dispatch-Settles fuel h enough =
          let asked = locate_handles all_handles ∷ h in
          elim (Result-cases (map_ok length (fw.locate_handle_buffer h all_handles))) [
            | inr (e, same) ↦ (err e, rw (interleave_connect_and_dispatch, same) refl)
            | inl (count, same) ↦
                let counted = located-Counted h count same in
                let (r, ends) =
                  interleave_rounds-Settles fuel count h asked counted
                    (locate_handles all_handles ∷ [], refl) (omega arith) in
                (r, rw (interleave_connect_and_dispatch, same) ends)
          ]
