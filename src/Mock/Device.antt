-- ===== src/Mock/Device.antt =====
-- The mock as a data source (ec/test-lib/src/mock.rs). A lock is held for one call only, and no lock is
-- poisoned, since nothing panics while it is held: the state is what the locks guard.
pub mod Sound
pub mod Settings
use odp_platform_common.Common.{ℕ, ◌==◌, Bool, true, false, Option, none, some, if◌then◌else◌}
use odp_platform_common.Common.Result.{Result, ok, err, map_ok, ok_or}
use odp_platform_common.Script.Platform.{Platform}
use odp_platform_common.Script.Source.{Devices, Source}
use odp_platform_common.Script.Syntax.{Threshold, on, ramping, max}
use odp_platform_common.Mock.Alarm.{
  Values, Bix, MockRtc, MockRtcTimer, rtc_new, get_timer, put_timer,
}
use odp_platform_common.Mock.Battery.{BstState, poll_battery}
use odp_platform_common.Mock.Ramp.{
  Clock, Ramp, TempState, ramp_new, set_target, ramp_value, temp_new, temp_poll, idle_temp,
}

pub data MockError : Type 0 where
  invalid_data : MockError

pub record MockThresholds (P : Platform) : Type 0 where
  pub on_temp : P.F
  pub ramping_temp : P.F
  pub max_temp : P.F

pub record Mock (P : Platform) (D : Devices P) : Type 0 where
  pub rtc : MockRtc D
  pub rpm_override : Option P.F
  pub current_temp_c : P.F
  pub temp_state : TempState P
  pub fan_state : Ramp P
  pub bst_state : BstState
  pub thresholds : MockThresholds P
  -- The readings of the clock so far.
  pub readings : ℕ

abbrev fixed : Bix
fixed = record {
  revision = 1;
  design_capacity = 10000;
  last_full_charge_capacity = 9890;
  design_voltage = 13000;
  design_cap_of_warning = 5000;
  design_cap_of_low = 3000;
  cycle_count = 1337;
  measurement_accuracy = 80000;
  max_sampling_time = 42;
  min_sampling_time = 7;
  max_averaging_interval = 5;
  min_averaging_interval = 1;
  battery_capacity_granularity_1 = 10;
  battery_capacity_granularity_2 = 10;
}

module _ {P : Platform} {D : Devices P} (C : Clock P) (V : Values P D) where
  open P use {F, le, of_ℕ}

  abbrev pub thresholds_default : MockThresholds P
  thresholds_default = record { on_temp = of_ℕ 28; ramping_temp = of_ℕ 40; max_temp = of_ℕ 44 }

  -- A new mock, after so many readings of the clock.
  unfoldable pub new : ℕ → Mock P D
  unfolding rtc_new temp_new ramp_new
  new n =
      let (n', temp) = temp_new C n in
      let (n'', fan) = ramp_new C (of_ℕ 0) n' in
      record {
        rtc = rtc_new V;
        rpm_override = none;
        current_temp_c = of_ℕ 25;
        temp_state = temp;
        fan_state = fan;
        bst_state = record { state = 2; capacity = 0 };
        thresholds = thresholds_default;
        readings = n'';
      }

  unfoldable pub get_temperature : Mock P D → Mock P D × Result F MockError
  unfolding temp_poll
  get_temperature m =
      let (n, temp) = temp_poll C m.temp_state m.readings in
      (
        record m { temp_state = temp; current_temp_c = temp.ramp.current; readings = n },
        ok temp.ramp.current,
      )

  -- The speed to which the fan ramps at a temperature, and over how many seconds.
  unfoldable pub fan_target : F → F × F
  fan_target temp_c =
      if le (of_ℕ 44) temp_c
      then (of_ℕ 6000, of_ℕ 5)
      else if le (of_ℕ 40) temp_c
      then (of_ℕ 3500, of_ℕ 5)
      else if le (of_ℕ 28) temp_c
      then (of_ℕ 1500, of_ℕ 2)
      else (of_ℕ 0, of_ℕ 2)

  unfoldable pub rpm_of : Option F → Mock P D → Mock P D × Result F MockError
  unfolding fan_target set_target ramp_value
  rpm_of (some rpm) m = (m, ok rpm)
  rpm_of none m =
      let (target, ramp_secs) = fan_target m.current_temp_c in
      let (n, fan) = set_target C target ramp_secs m.fan_state m.readings in
      let (n', fan') = ramp_value C fan n in
      (record m { fan_state = fan'; readings = n' }, ok fan'.current)

  unfoldable pub threshold_of : Threshold → MockThresholds P → F
  threshold_of on t = t.on_temp
  threshold_of ramping t = t.ramping_temp
  threshold_of max t = t.max_temp

  unfoldable pub put_threshold : Threshold → F → MockThresholds P → MockThresholds P
  put_threshold on value t = record t { on_temp = value }
  put_threshold ramping value t = record t { ramping_temp = value }
  put_threshold max value t = record t { max_temp = value }

  unfoldable pub get_bst : Mock P D → Mock P D × Result D.Bst MockError
  unfolding poll_battery
  get_bst m =
      let b = poll_battery m.bst_state in
      (
        record m { bst_state = b },
        map_ok (λ state. V.bst state 3839 b.capacity 12569)
            (ok_or (V.from_bits b.state) invalid_data),
      )

  -- A timer of the clock changed.
  unfoldable pub set_timer : P.TimerId → MockRtcTimer D → Mock P D → Mock P D
  unfolding put_timer
  set_timer timer_id timer m = record m { rtc = put_timer V timer_id timer m.rtc }

  unfoldable pub mock_source : Source P D
  unfolding get_temperature rpm_of threshold_of put_threshold get_bst get_timer set_timer
  mock_source = record {
    St = Mock P D;
    Error = MockError;
    wait = λ d m. m;
    get_temperature = get_temperature;
    get_rpm = λ m. rpm_of m.rpm_override m;
    get_min_rpm = λ m. (m, ok (of_ℕ 0));
    get_max_rpm = λ m. (m, ok (of_ℕ 6000));
    get_threshold = λ t m. (m, ok (threshold_of t m.thresholds));
    set_threshold = λ t v m. (record m { thresholds = put_threshold t v m.thresholds }, ok tt);
    set_rpm = λ rpm m. (record m { rpm_override = some rpm }, ok tt);
    get_bst = get_bst;
    get_bix = λ m. (m, ok (V.bix fixed));
    set_btp = λ trip_point m. (m, ok tt);
    get_capabilities = λ m. (m, ok (V.capabilities 0xf7));
    get_real_time = λ m. (m, ok m.rtc.time);
    get_wake_status = λ id m. (m, ok (get_timer V id m.rtc).timer_status);
    get_expired_timer_wake_policy = λ id m. (m, ok (get_timer V id m.rtc).wake_policy);
    get_timer_value = λ id m. (m, ok (get_timer V id m.rtc).value);
    set_real_time = λ t m. (record m { rtc = record m.rtc { time = t } }, ok tt);
    set_timer_value =
        λ id v m. (set_timer id (record (get_timer V id m.rtc) { value = v }) m, ok tt);
    set_expired_timer_wake_policy =
        λ id v m. (set_timer id (record (get_timer V id m.rtc) { wake_policy = v }) m, ok tt);
    clear_wake_status = λ id m.
        (set_timer id (record (get_timer V id m.rtc) { timer_status = V.timer_status 0 }) m, ok tt);
  }

-- One connector only: the snapshot is fixed.
unfoldable pub get_snapshot : {Snapshot : Type 0} → Snapshot → ℕ → Result Snapshot MockError
get_snapshot snapshot connector = if connector == 1 then ok snapshot else err invalid_data
