-- ===== src/Mock/Device/Settings.antt =====
-- What is set is what is read.
use odp_platform_common.Common.{
  ℕ, Bool, Bool-cases, inl, inr, true, false, not, if◌then◌else◌, ◌≡◌, ap, refl,
}
use odp_platform_common.Common.Result.{ok}
use odp_platform_common.Script.Platform.{Platform}
use odp_platform_common.Script.Source.{Devices}
use odp_platform_common.Script.Syntax.{Threshold, on, ramping, max}
use odp_platform_common.Mock.Alarm.{Values, MockRtc, MockRtcTimer, get_timer, put_timer}
use odp_platform_common.Mock.Ramp.{Clock}
use odp_platform_common.Mock.Device.{
  Mock, MockThresholds, rpm_of, threshold_of, put_threshold, set_timer, mock_source,
}

abbrev pub same_threshold : Threshold → Threshold → Bool
same_threshold on on = true
same_threshold ramping ramping = true
same_threshold max max = true
same_threshold _ _ = false

abbrev pub same_bit : Bool → Bool → Bool
same_bit true b = b
same_bit false b = not b

module _ {P : Platform} {D : Devices P} (C : Clock P) (V : Values P D) where
  threshold_of-put_threshold :
      (t t' : Threshold) (v : P.F) (m : MockThresholds P)
      → threshold_of C V t' (put_threshold C V t v m)
        ≡ (if same_threshold t t' then v else threshold_of C V t' m)
  unfolding threshold_of put_threshold
  threshold_of-put_threshold on on v m = refl
  threshold_of-put_threshold on ramping v m = refl
  threshold_of-put_threshold on max v m = refl
  threshold_of-put_threshold ramping on v m = refl
  threshold_of-put_threshold ramping ramping v m = refl
  threshold_of-put_threshold ramping max v m = refl
  threshold_of-put_threshold max on v m = refl
  threshold_of-put_threshold max ramping v m = refl
  threshold_of-put_threshold max max v m = refl

  abbrev pub same_timer : P.TimerId → P.TimerId → Bool
  same_timer id id' = same_bit (V.is_second id) (V.is_second id')

  -- A timer of a mock.
  abbrev pub timer_of : P.TimerId → Mock P D → MockRtcTimer D
  timer_of id m = get_timer V id m.rtc

  get_timer-put_timer_of :
      (f : MockRtcTimer D → MockRtcTimer D) (id id' : P.TimerId) (rtc : MockRtc D)
      → get_timer V id' (put_timer V id (f (get_timer V id rtc)) rtc)
        ≡ (if same_timer id id' then f (get_timer V id' rtc) else get_timer V id' rtc)
  unfolding get_timer put_timer
  get_timer-put_timer_of f id id' rtc = elim (Bool-cases (V.is_second id)) [
    | inl second ↦ elim (Bool-cases (V.is_second id')) [
      | inl second' ↦ rw (second, second') refl
      | inr first' ↦ rw (second, first') refl
    ]
    | inr first ↦ elim (Bool-cases (V.is_second id')) [
      | inl second' ↦ rw (first, second') refl
      | inr first' ↦ rw (first, first') refl
    ]
  ]

  put_timer-time :
      (id : P.TimerId) (timer : MockRtcTimer D) (rtc : MockRtc D)
      → (put_timer V id timer rtc).time ≡ rtc.time
  unfolding put_timer
  put_timer-time id timer rtc = elim (Bool-cases (V.is_second id)) [
    | inl second ↦ rw second refl
    | inr first ↦ rw first refl
  ]

  -- A mock after a setter of a timer: this timer is changed by `f`, and the other, the time and all else
  -- are as before.
  abbrev pub TimerSet :
      Mock P D → Mock P D → P.TimerId → P.TimerId → (MockRtcTimer D → MockRtcTimer D) → Type 0
  TimerSet before after id id' f =
      (timer_of id' after
        ≡ (if same_timer id id' then f (timer_of id' before) else timer_of id' before))
      × (after.rtc.time ≡ before.rtc.time)
      × (record after { rtc = before.rtc } ≡ before)

  -- A mock after its setters, by what was set and what was not.
  unfoldable pub Settings :
      Mock P D → Threshold → Threshold → P.F → P.TimerId → P.TimerId → ℕ → ℕ → Type 0
  unfolding mock_source
  Settings m t t' v id id' n policy =
      let hot = ((mock_source C V).set_threshold t v m).0 in
      let fast = ((mock_source C V).set_rpm v m).0 in
      (((mock_source C V).get_threshold t' hot).1
        ≡ ok (if same_threshold t t' then v else threshold_of C V t' m.thresholds))
      × (record hot { thresholds = m.thresholds } ≡ m)
      × (((mock_source C V).get_rpm fast).1 ≡ ok v)
      × (record fast { rpm_override = m.rpm_override } ≡ m)
      × TimerSet m ((mock_source C V).set_timer_value id n m).0 id id'
          (λ timer. record timer { value = n })
      × TimerSet m ((mock_source C V).set_expired_timer_wake_policy id policy m).0 id id'
          (λ timer. record timer { wake_policy = policy })
      × TimerSet m ((mock_source C V).clear_wake_status id m).0 id id'
          (λ timer. record timer { timer_status = V.timer_status 0 })
      × (((mock_source C V).get_timer_value id' m).1 ≡ ok (timer_of id' m).value)
      × (((mock_source C V).get_expired_timer_wake_policy id' m).1
          ≡ ok (timer_of id' m).wake_policy)
      × (((mock_source C V).get_wake_status id' m).1 ≡ ok (timer_of id' m).timer_status)

  -- A mock reports the threshold and the speed that were set, and their setters change nothing else. The
  -- setters of a timer's value, of its policy and the clearing of its status change that field of that
  -- timer, and nothing else of it, of the other timer, of the clock or of the mock; the reports of a
  -- timer are its three fields.
  pub mock_source-Settings :
      (m : Mock P D) (t t' : Threshold) (v : P.F) (id id' : P.TimerId) (n policy : ℕ)
      → Settings m t t' v id id' n policy
  unfolding Settings mock_source rpm_of set_timer
  mock_source-Settings m t t' v id id' n policy = (
    ap ok (threshold_of-put_threshold t t' v m.thresholds),
    refl,
    refl,
    refl,
    (
      get_timer-put_timer_of (λ timer. record timer { value = n }) id id' m.rtc,
      put_timer-time id _ m.rtc,
      refl,
    ),
    (
      get_timer-put_timer_of (λ timer. record timer { wake_policy = policy }) id id' m.rtc,
      put_timer-time id _ m.rtc,
      refl,
    ),
    (
      get_timer-put_timer_of (λ timer. record timer { timer_status = V.timer_status 0 }) id id'
          m.rtc,
      put_timer-time id _ m.rtc,
      refl,
    ),
    refl,
    refl,
    refl,
  )
