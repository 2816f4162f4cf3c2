-- ===== src/Tui/Update/Ticks.antt =====
-- What the battery's updater keeps, tick by tick.
use odp_platform_common.Common.{
  ℕ, suc, ◌+◌, ◌%◌, ◌^◌, ◌≤◌, Bool, Bool-cases, inl, inr, true, false, List, [], ◌∷◌, ◌++◌, length,
  length-append, length-drop, ltb, ◌≡◌, refl, sym, subst, ap, ◌∙◌, arith,
}
use odp_platform_common.Common.Result.{Result, Result-cases, ok, err}
use odp_platform_common.Script.Exec.Serves.{Serves}
use odp_platform_common.Script.Platform.{Platform}
use odp_platform_common.Script.Source.{Devices, Source}
use odp_platform_common.Serial.Device.{Float}
use odp_platform_common.Tui.Samples.{
  SampleBuf, record_value, insert, push_sample, buf_default, stats_default,
}
use odp_platform_common.Tui.Update.{
  max_samples, is_ok, BatteryState, BatteryUpdater, battery_default, battery_new, stored_bst,
  stored_bix, poll_bst, poll_bix, process_commands, cache_bix, sample_capacity, battery_update,
}

module _ {P : Platform} {D : Devices P} (N : Float P) (S : Source P D) where
  open P use {of_ℕ}

  -- The ticks, each with the commands received before it.
  unfoldable pub battery_updates : List (List ℕ) → BatteryUpdater S → BatteryUpdater S
  battery_updates [] u = u
  battery_updates (commands ∷ ticks) u = battery_updates ticks (battery_update N S commands u)

  -- A state of the battery updater that started with this static information. What it says was read is
  -- what a call of the source gave, and where the static information never was, it is still the first.
  pub record Sound (first : D.Bix) (u : BatteryUpdater S) : Type 0 where
    pub cached_is : u.bix_cached ≡ u.state.bix_success
    pub bix_read : u.state.bix_success ≡ true → (st : S.St) × ((S.get_bix st).1 ≡ ok u.state.bix)
    pub bix_unread : u.state.bix_success ≡ false → u.state.bix ≡ first
    pub bst_read : u.state.bst_success ≡ true → (st : S.St) × ((S.get_bst st).1 ≡ ok u.state.bst)
    pub counted : u.state.t_min ≡ u.state.samples.stats.count
    pub bounded : length u.state.samples.samples ≤ max_samples

  process_commands-Sound :
      (first : D.Bix) (commands : List ℕ) (u : BatteryUpdater S)
      → Sound first u
      → Sound first (process_commands N S commands u)
  unfolding process_commands
  process_commands-Sound first [] u s = s
  process_commands-Sound first (v ∷ commands) u s =
      process_commands-Sound first commands _ (record {
        cached_is = s.cached_is;
        bix_read = s.bix_read;
        bix_unread = s.bix_unread;
        bst_read = s.bst_read;
        counted = s.counted;
        bounded = s.bounded;
      })

  -- The static information is read only where it never was.
  cache_bix-Sound :
      (first : D.Bix) (cached : Bool) (u : BatteryUpdater S)
      → u.bix_cached ≡ cached
      → Sound first u
      → Sound first (cache_bix N S cached u)
  unfolding cache_bix poll_bix stored_bix
  cache_bix-Sound first true u now s = s
  cache_bix-Sound first false u now s = elim (Result-cases (S.get_bix u.source).1) [
    | inl (bix, e) ↦ rw e (record {
      cached_is = refl;
      bix_read = λ _. (u.source, e);
      bix_unread = λ h. cc;
      bst_read = s.bst_read;
      counted = s.counted;
      bounded = s.bounded;
    })
    | inr (why, e) ↦ rw e (record {
      cached_is = refl;
      bix_read = λ h. cc;
      bix_unread = λ _. s.bix_unread (sym s.cached_is ∙ now);
      bst_read = s.bst_read;
      counted = s.counted;
      bounded = s.bounded;
    })
  ]

  poll_bst-Sound :
      (first : D.Bix) (u : BatteryUpdater S) → Sound first u → Sound first (poll_bst N S u)
  unfolding poll_bst stored_bst
  poll_bst-Sound first u s = elim (Result-cases (S.get_bst u.source).1) [
    | inl (bst, e) ↦ rw e (record {
      cached_is = s.cached_is;
      bix_read = s.bix_read;
      bix_unread = s.bix_unread;
      bst_read = λ _. (u.source, e);
      counted = s.counted;
      bounded = s.bounded;
    })
    | inr (why, e) ↦ rw e (record {
      cached_is = s.cached_is;
      bix_read = s.bix_read;
      bix_unread = s.bix_unread;
      bst_read = λ h. cc;
      counted = s.counted;
      bounded = s.bounded;
    })
  ]

  push_sample-bounded :
      {T : Type 0} (bound : ℕ) (x : T) (xs : List T)
      → length xs ≤ bound
      → length (push_sample N bound x xs) ≤ bound
  push_sample-bounded bound x xs h =
      let longer = length-append xs (x ∷ []) in
      elim (Bool-cases (ltb bound (length (xs ++ x ∷ [])))) [
        | inl full ↦ rw full (omega (arith, length-drop 1 (xs ++ x ∷ []), longer))
        | inr room ↦ rw room (ground (arith, longer))
      ]

  record_value-counted :
      (v : P.F) (n : ℕ) (buf : SampleBuf P ℕ)
      → n ≡ buf.stats.count
      → (n + 1) % 2 ^ 64 ≡ (record_value N v buf.stats).count
  unfolding record_value
  record_value-counted v n buf e = ap (λ t. (t + 1) % 2 ^ 64) e

  sample_capacity-Sound :
      (first : D.Bix) (success : Bool) (u : BatteryUpdater S)
      → Sound first u
      → Sound first (record u { state = sample_capacity N S success u.state })
  unfolding sample_capacity insert
  sample_capacity-Sound first false u s = record {
    cached_is = s.cached_is;
    bix_read = s.bix_read;
    bix_unread = s.bix_unread;
    bst_read = s.bst_read;
    counted = s.counted;
    bounded = s.bounded;
  }
  sample_capacity-Sound first true u s = record {
    cached_is = s.cached_is;
    bix_read = s.bix_read;
    bix_unread = s.bix_unread;
    bst_read = s.bst_read;
    counted =
        record_value-counted (of_ℕ (D.battery_remaining_capacity u.state.bst)) u.state.t_min
          u.state.samples s.counted;
    bounded = push_sample-bounded max_samples _ u.state.samples.samples s.bounded;
  }

  battery_update-Sound :
      (first : D.Bix) (commands : List ℕ) (u : BatteryUpdater S)
      → Sound first u
      → Sound first (battery_update N S commands u)
  unfolding battery_update
  battery_update-Sound first commands u s =
      let ready = process_commands N S commands u in
      sample_capacity-Sound first _ (poll_bst N S (cache_bix N S ready.bix_cached ready)) (
        poll_bst-Sound first _ (
          cache_bix-Sound first ready.bix_cached ready refl
            (process_commands-Sound first commands u s)))

  battery_updates-Sound_from :
      (first : D.Bix) (ticks : List (List ℕ)) (u : BatteryUpdater S)
      → Sound first u
      → Sound first (battery_updates ticks u)
  unfolding battery_updates
  battery_updates-Sound_from first [] u s = s
  battery_updates-Sound_from first (commands ∷ ticks) u s =
      battery_updates-Sound_from first ticks _ (battery_update-Sound first commands u s)

  -- Whatever the source answers, after any number of ticks of a new updater: where the static
  -- information or the status is taken for read, it is what a call of the source gave; the static
  -- information that is not is that of the start; the ticks on the time axis are as
  -- many as the samples recorded, and no more samples are held than the graph shows.
  pub battery_updates-Sound :
      (ticks : List (List ℕ)) (source : S.St) (bst : D.Bst) (bix : D.Bix)
      → Sound bix (battery_updates ticks (battery_new N S source (battery_default N S bst bix)))
  unfolding battery_new battery_default buf_default stats_default
  battery_updates-Sound ticks source bst bix = battery_updates-Sound_from bix ticks _ (record {
    cached_is = refl;
    bix_read = λ h. cc;
    bix_unread = λ _. refl;
    bst_read = λ h. cc;
    counted = refl;
    bounded = omega arith;
  })

  -- The calls of the ticks, in their order: the trip points that were received, the static information
  -- in the first tick, and the status.
  abbrev pub set_all : List ℕ → S.St → S.St
  set_all [] st = st
  set_all (v ∷ commands) st = set_all commands (S.set_btp v st).0

  abbrev pub polled : Bool → List (List ℕ) → S.St → S.St
  polled read [] st = st
  polled true (commands ∷ ticks) st = polled true ticks (S.get_bst (set_all commands st)).0
  polled false (commands ∷ ticks) st =
      polled true ticks (S.get_bst (S.get_bix (set_all commands st)).0).0

  -- The last of the trip points received.
  abbrev pub last_of : List ℕ → ℕ → ℕ
  last_of [] btp = btp
  last_of (v ∷ commands) btp = last_of commands v

  abbrev pub last_received : List (List ℕ) → ℕ → ℕ
  last_received [] btp = btp
  last_received (commands ∷ ticks) btp = last_received ticks (last_of commands btp)

  -- With a source that answers every call.
  module _ (I : S.St → Type 0) (serves : Serves S I) where
    -- A state after so many ticks, each of which succeeded.
    pub record Live (ticks : ℕ) (u : BatteryUpdater S) : Type 0 where
      pub source_is : I u.source
      pub t_min_is : u.state.t_min ≡ ticks % 2 ^ 64
      pub bst_read : 1 ≤ ticks → u.state.bst_success ≡ true
      pub bix_read : 1 ≤ ticks → u.state.bix_success ≡ true
      pub cached_is : u.bix_cached ≡ u.state.bix_success
      pub btp_is : u.state.btp_success ≡ true

    process_commands-Live :
        (commands : List ℕ) (n : ℕ) (u : BatteryUpdater S)
        → Live n u
        → Live n (process_commands N S commands u)
    unfolding process_commands
    process_commands-Live [] n u l = l
    process_commands-Live (v ∷ commands) n u l =
        let (kept, (answer, e)) = serves.set_btp v u.source l.source_is in
        process_commands-Live commands n _ (record {
          source_is = kept;
          t_min_is = l.t_min_is;
          bst_read = l.bst_read;
          bix_read = l.bix_read;
          cached_is = l.cached_is;
          btp_is = ap is_ok e;
        })

    -- The tick after the commands, with the static information read or not.
    cached-Live :
        (cached : Bool) (n : ℕ) (u : BatteryUpdater S)
        → u.bix_cached ≡ cached
        → Live n u
        → I (cache_bix N S cached u).source
          × ((cache_bix N S cached u).state.bix_success ≡ true)
          × ((cache_bix N S cached u).bix_cached ≡ true)
          × ((cache_bix N S cached u).state.t_min ≡ n % 2 ^ 64)
          × ((cache_bix N S cached u).state.btp_success ≡ true)
    unfolding cache_bix poll_bix stored_bix
    cached-Live true n u e l = (l.source_is, sym l.cached_is ∙ e, e, l.t_min_is, l.btp_is)
    cached-Live false n u e l =
        let (kept, (bix, read)) = serves.get_bix u.source l.source_is in
        rw read (kept, refl, refl, l.t_min_is, l.btp_is)

    tick-Live :
        (n : ℕ) (u : BatteryUpdater S)
        → I u.source
        → u.state.bix_success ≡ true
        → u.bix_cached ≡ true
        → u.state.t_min ≡ n % 2 ^ 64
        → u.state.btp_success ≡ true
        → let polled = poll_bst N S u in
          Live
            (suc n)
            (record polled { state = sample_capacity N S polled.state.bst_success polled.state })
    unfolding poll_bst stored_bst sample_capacity
    tick-Live n u i read cached time btp =
        let (kept, (bst, answered)) = serves.get_bst u.source i in
        rw answered (record {
          source_is = kept;
          t_min_is = omega (arith, time);
          bst_read = λ _. refl;
          bix_read = λ _. read;
          cached_is = cached ∙ sym read;
          btp_is = btp;
        })

    battery_update-Live :
        (commands : List ℕ) (n : ℕ) (u : BatteryUpdater S)
        → Live n u
        → Live (suc n) (battery_update N S commands u)
    unfolding battery_update
    battery_update-Live commands n u l =
        let ready = process_commands N S commands u in
        let l' = process_commands-Live commands n u l in
        let (i, read, cached, time, btp) = cached-Live ready.bix_cached n ready refl l' in
        tick-Live n (cache_bix N S ready.bix_cached ready) i read cached time btp

    process_commands-set_all :
        (commands : List ℕ) (u : BatteryUpdater S)
        → ((process_commands N S commands u).source ≡ set_all commands u.source)
          × ((process_commands N S commands u).state.btp ≡ last_of commands u.state.btp)
          × ((process_commands N S commands u).bix_cached ≡ u.bix_cached)
    unfolding process_commands
    process_commands-set_all [] u = (refl, refl, refl)
    process_commands-set_all (v ∷ commands) u = process_commands-set_all commands _

    stored_bst-btp :
        (r : Result D.Bst S.Error) (s : BatteryState D) → (stored_bst N S r s).btp ≡ s.btp
    unfolding stored_bst
    stored_bst-btp (ok bst) s = refl
    stored_bst-btp (err e) s = refl

    stored_bix-btp :
        (r : Result D.Bix S.Error) (s : BatteryState D) → (stored_bix N S r s).btp ≡ s.btp
    unfolding stored_bix
    stored_bix-btp (ok bix) s = refl
    stored_bix-btp (err e) s = refl

    sample_capacity-btp :
        (success : Bool) (s : BatteryState D) → (sample_capacity N S success s).btp ≡ s.btp
    unfolding sample_capacity
    sample_capacity-btp true s = refl
    sample_capacity-btp false s = refl

    -- A tick without commands.
    tick-polled :
        (read : Bool) (u : BatteryUpdater S)
        → let last = poll_bst N S (cache_bix N S read u) in
          (last.source ≡ polled read ([] ∷ []) u.source) × (last.state.btp ≡ u.state.btp)
    unfolding poll_bst cache_bix poll_bix
    tick-polled true u = (refl, stored_bst-btp _ u.state)
    tick-polled false u = (refl, stored_bst-btp _ _ ∙ stored_bix-btp _ u.state)

    polled-nil : (read : Bool) (st : S.St) → st ≡ polled read [] st
    polled-nil true st = refl
    polled-nil false st = refl

    polled-cons :
        (read : Bool) (commands : List ℕ) (ticks : List (List ℕ)) (st : S.St)
        → polled read (commands ∷ ticks) st
          ≡ polled true ticks (polled read ([] ∷ []) (set_all commands st))
    polled-cons true commands ticks st = refl
    polled-cons false commands ticks st = refl

    battery_update-polled :
        (commands : List ℕ) (u : BatteryUpdater S)
        → ((battery_update N S commands u).source
            ≡ polled u.bix_cached ([] ∷ []) (set_all commands u.source))
          × ((battery_update N S commands u).state.btp ≡ last_of commands u.state.btp)
    unfolding battery_update
    battery_update-polled commands u =
        let ready = process_commands N S commands u in
        let (set, received, cached) = process_commands-set_all commands u in
        let (called, kept) = tick-polled ready.bix_cached ready in
        (
          called
              ∙ ap (λ read. polled read ([] ∷ []) ready.source) cached
              ∙ ap (polled u.bix_cached ([] ∷ [])) set,
          sample_capacity-btp _ _ ∙ kept ∙ received,
        )

    battery_updates-polled :
        (ticks : List (List ℕ)) (n : ℕ) (u : BatteryUpdater S)
        → Live n u
        → ((battery_updates ticks u).source ≡ polled u.bix_cached ticks u.source)
          × ((battery_updates ticks u).state.btp ≡ last_received ticks u.state.btp)
    unfolding battery_updates
    battery_updates-polled [] n u l = (polled-nil u.bix_cached u.source, refl)
    battery_updates-polled (commands ∷ ticks) n u l =
        let next = battery_update N S commands u in
        let l' = battery_update-Live commands n u l in
        let (called, received) = battery_update-polled commands u in
        let (rest, last) = battery_updates-polled ticks (suc n) next l' in
        let cached : next.bix_cached ≡ true = l'.cached_is ∙ l'.bix_read (omega arith) in
        (
          rest
              ∙ ap (λ read. polled read ticks next.source) cached
              ∙ ap (polled true ticks) called
              ∙ sym (polled-cons u.bix_cached commands ticks u.source),
          last ∙ ap (last_received ticks) received,
        )

    battery_updates-Live_from :
        (ticks : List (List ℕ)) (n : ℕ) (u : BatteryUpdater S)
        → Live n u
        → Live (n + length ticks) (battery_updates ticks u)
    unfolding battery_updates
    battery_updates-Live_from [] n u l = subst (λ t. Live t u) (omega arith) l
    battery_updates-Live_from (commands ∷ ticks) n u l =
        subst (λ t. Live t (battery_updates ticks (battery_update N S commands u))) (omega arith)
          (battery_updates-Live_from ticks (suc n) (battery_update N S commands u)
            (battery_update-Live commands n u l))

    -- With a source that answers every call, such as the mock, every tick of the battery's updater
    -- succeeds, whatever commands it received: after any number of ticks the time axis has as many,
    -- modulo 2 ^ 64, and from the first tick on both kinds of information are read. The calls made of
    -- the source are, in each tick, those that set the trip points received, one by one, and that of
    -- the status, and once, in the first tick, that of the static information; the trip point shown is
    -- the last one received.
    pub battery_updates-Live :
        (ticks : List (List ℕ)) (source : S.St) (bst : D.Bst) (bix : D.Bix)
        → I source
        → let last = battery_updates ticks (battery_new N S source (battery_default N S bst bix)) in
          Live (length ticks) last
          × (last.source ≡ polled false ticks source)
          × (last.state.btp ≡ last_received ticks 0)
    unfolding battery_new battery_default
    battery_updates-Live ticks source bst bix i =
        let u = battery_new N S source (battery_default N S bst bix) in
        let start : Live 0 u = record {
          source_is = i;
          t_min_is = omega arith;
          bst_read = λ h. absurd (omega arith);
          bix_read = λ h. absurd (omega arith);
          cached_is = refl;
          btp_is = refl;
        } in
        (
          subst (λ t. Live t (battery_updates ticks u)) (omega arith)
              (battery_updates-Live_from ticks 0 u start),
          (battery_updates-polled ticks 0 u start).0,
          (battery_updates-polled ticks 0 u start).1,
        )
