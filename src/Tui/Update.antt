-- ===== src/Tui/Update.antt =====
-- The updaters of the shared state (ec/test-tui/src/updater.rs, state.rs and source.rs, with poll_bst and
-- poll_bix of battery.rs). An updater is the only writer of its state, and no lock is poisoned. The
-- commands of a tick are those that were received before the channel was empty.
pub mod Ticks
use odp_platform_common.Common.{
  ℕ, suc, ◌+◌, ◌%◌, ◌^◌, Bool, true, false, Option, none, some, List, [], ◌∷◌, if◌then◌else◌,
}
use odp_platform_common.Common.Result.{Result, ok, err}
use odp_platform_common.Script.Platform.{Platform}
use odp_platform_common.Script.Source.{Devices, Source}
use odp_platform_common.Script.Syntax.{on, ramping, max}
use odp_platform_common.Serial.Device.{Float}
use odp_platform_common.Tui.Battery.{SensorThresholds, FanStateLevels, sensor_thresholds}
use odp_platform_common.Tui.Samples.{SampleBuf, insert, buf_default}

abbrev pub max_samples : ℕ
max_samples = 60

abbrev pub is_ok : {A E : Type 0} → Result A E → Bool
is_ok (ok a) = true
is_ok (err e) = false

-- `SetBtp(v)`; the records of the service interface start with their default.
pub record BatteryState {P : Platform} (D : Devices P) : Type 0 where
  pub bst : D.Bst
  pub bst_success : Bool
  pub bix : D.Bix
  pub bix_success : Bool
  pub samples : SampleBuf P ℕ
  pub t_min : ℕ
  pub btp : ℕ
  pub btp_success : Bool

-- The updater, with the state of its source.
pub record BatteryUpdater {P : Platform} {D : Devices P} (S : Source P D) : Type 0 where
  pub source : S.St
  pub state : BatteryState D
  pub bix_cached : Bool

pub record FanRpmBounds (P : Platform) : Type 0 where
  pub min : P.F
  pub max : P.F

pub record SensorData (P : Platform) : Type 0 where
  pub skin_temp : P.F
  pub temp_success : Bool
  pub thresholds : SensorThresholds P
  pub thresholds_success : Bool
  pub samples : SampleBuf P P.F

pub record FanData (P : Platform) : Type 0 where
  pub rpm : P.F
  pub rpm_success : Bool
  pub rpm_bounds : FanRpmBounds P
  pub bounds_success : Bool
  pub state_levels : FanStateLevels P
  pub levels_success : Bool
  pub samples : SampleBuf P ℕ

pub record ThermalState (P : Platform) : Type 0 where
  pub sensor : SensorData P
  pub fan : FanData P
  pub t : ℕ
  pub rpm_limit : P.F
  pub rpm_set_success : Bool

module _ {P : Platform} {D : Devices P} (N : Float P) (S : Source P D) where
  open P use {F, of_ℕ, to_u32}
  open S use {St, Error}

  unfoldable pub battery_default : D.Bst → D.Bix → BatteryState D
  unfolding buf_default
  battery_default bst bix = record {
    bst = bst;
    bst_success = false;
    bix = bix;
    bix_success = false;
    samples = buf_default N;
    t_min = 0;
    btp = 0;
    btp_success = true;
  }

  unfoldable pub battery_new : St → BatteryState D → BatteryUpdater S
  battery_new source state = record { source = source; state = state; bix_cached = false }

  unfoldable pub stored_bst : Result D.Bst Error → BatteryState D → BatteryState D
  stored_bst (ok bst) s = record s { bst = bst; bst_success = true }
  stored_bst (err e) s = record s { bst_success = false }

  unfoldable pub stored_bix : Result D.Bix Error → BatteryState D → BatteryState D
  stored_bix (ok bix) s = record s { bix = bix; bix_success = true }
  stored_bix (err e) s = record s { bix_success = false }

  unfoldable pub poll_bst : BatteryUpdater S → BatteryUpdater S
  unfolding stored_bst
  poll_bst u =
      let (source, r) = S.get_bst u.source in
      record u { source = source; state = stored_bst r u.state }

  unfoldable pub poll_bix : BatteryUpdater S → BatteryUpdater S
  unfolding stored_bix
  poll_bix u =
      let (source, r) = S.get_bix u.source in
      record u { source = source; state = stored_bix r u.state }

  unfoldable pub process_commands : List ℕ → BatteryUpdater S → BatteryUpdater S
  process_commands [] u = u
  process_commands (v ∷ commands) u =
      let (source, r) = S.set_btp v u.source in
      process_commands commands
        (record u { source = source; state = record u.state { btp = v; btp_success = is_ok r } })

  -- Until it could be read once, the static information is read.
  unfoldable pub cache_bix : Bool → BatteryUpdater S → BatteryUpdater S
  unfolding poll_bix
  cache_bix true u = u
  cache_bix false u =
      let polled = poll_bix u in record polled { bix_cached = polled.state.bix_success }

  unfoldable pub sample_capacity : Bool → BatteryState D → BatteryState D
  unfolding insert
  sample_capacity true s = record s {
    samples = insert N of_ℕ max_samples (D.battery_remaining_capacity s.bst) s.samples;
    t_min = (s.t_min + 1) % 2 ^ 64;
  }
  sample_capacity false s = s

  unfoldable pub battery_update : List ℕ → BatteryUpdater S → BatteryUpdater S
  unfolding process_commands cache_bix poll_bst sample_capacity
  battery_update commands u =
      let ready = process_commands commands u in
      let polled = poll_bst (cache_bix ready.bix_cached ready) in
      record polled { state = sample_capacity polled.state.bst_success polled.state }

  unfoldable pub process_rpm : List F → St → ThermalState P → St × ThermalState P
  process_rpm [] st s = (st, s)
  process_rpm (rpm ∷ commands) st s =
      let (st', r) = S.set_rpm rpm st in
      process_rpm commands st' (record s { rpm_limit = rpm; rpm_set_success = is_ok r })

  unfoldable pub stored_temp : Result F Error → SensorData P → SensorData P
  unfolding insert
  stored_temp (ok t) d = record d {
    skin_temp = t;
    samples = insert N (λ x. x) max_samples t d.samples;
    temp_success = true;
  }
  stored_temp (err e) d = record d { temp_success = false }

  unfoldable pub stored_rpm : Result F Error → FanData P → FanData P
  unfolding insert
  stored_rpm (ok r) d = record d {
    rpm = r;
    samples = insert N of_ℕ max_samples (to_u32 r) d.samples;
    rpm_success = true;
  }
  stored_rpm (err e) d = record d { rpm_success = false }

  unfoldable pub stored_bounds : Result F Error → Result F Error → FanData P → FanData P
  stored_bounds (ok low) (ok high) d = record d {
    rpm_bounds = record { min = low; max = high };
    bounds_success = true;
  }
  stored_bounds (ok low) (err e) d = record d { bounds_success = false }
  stored_bounds (err e) r d = record d { bounds_success = false }

  unfoldable pub stored_levels :
      Result F Error → Result F Error → Result F Error → FanData P → FanData P
  stored_levels (ok first) (ok second) (ok third) d = record d {
    state_levels = record { on = first; ramping = second; max = third };
    levels_success = true;
  }
  stored_levels (ok first) (ok second) (err e) d = record d { levels_success = false }
  stored_levels (ok first) (err e) r d = record d { levels_success = false }
  stored_levels (err e) q r d = record d { levels_success = false }

  unfoldable pub thermal_update : List F → St → ThermalState P → St × ThermalState P
  unfolding process_rpm stored_temp stored_rpm stored_bounds stored_levels sensor_thresholds
  thermal_update commands st s =
      let (st0, ready) = process_rpm commands st s in
      let (st1, temp) = S.get_temperature st0 in
      let (st2, rpm) = S.get_rpm st1 in
      let (st3, min_rpm) = S.get_min_rpm st2 in
      let (st4, max_rpm) = S.get_max_rpm st3 in
      let (st5, thresh_on) = S.get_threshold on st4 in
      let (st6, thresh_ramp) = S.get_threshold ramping st5 in
      let (st7, thresh_max) = S.get_threshold max st6 in
      (
        st7,
        record ready {
          sensor = record (stored_temp temp ready.sensor) {
            thresholds = sensor_thresholds P;
            thresholds_success = true;
          };
          fan =
              stored_levels thresh_on thresh_ramp thresh_max
                (stored_bounds min_rpm max_rpm (stored_rpm rpm ready.fan));
          t = (ready.t + 1) % 2 ^ 64;
        },
      )
