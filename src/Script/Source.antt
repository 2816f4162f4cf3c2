-- ===== src/Script/Source.antt =====
-- The interface of a data source (the traits of ec/test-lib/src/lib.rs). A source is used through
-- `&self` and may hold locked state, so each method passes on a state. The records that
-- `battery_service_interface` and `time_alarm_service_interface` return are parameters.
use odp_platform_common.Common.{ℕ, Bool}
use odp_platform_common.Common.Result.{Result}
use odp_platform_common.Script.Platform.{Platform}
use odp_platform_common.Script.Syntax.{Threshold}

-- The returned records, by the fields and accessors that the executor reads.
pub record Devices (P : Platform) : Type 1 where
  pub Bst : Type 0
  pub battery_state : Bst → ℕ
  pub battery_present_rate : Bst → ℕ
  pub battery_remaining_capacity : Bst → ℕ
  pub battery_present_voltage : Bst → ℕ
  pub Bix : Type 0
  pub revision : Bix → ℕ
  pub design_capacity : Bix → ℕ
  pub last_full_charge_capacity : Bix → ℕ
  pub design_voltage : Bix → ℕ
  pub design_cap_of_warning : Bix → ℕ
  pub design_cap_of_low : Bix → ℕ
  pub cycle_count : Bix → ℕ
  pub measurement_accuracy : Bix → ℕ
  pub max_sampling_time : Bix → ℕ
  pub min_sampling_time : Bix → ℕ
  pub max_averaging_interval : Bix → ℕ
  pub min_averaging_interval : Bix → ℕ
  pub battery_capacity_granularity_1 : Bix → ℕ
  pub battery_capacity_granularity_2 : Bix → ℕ
  pub Capabilities : Type 0
  pub ac_wake_implemented : Capabilities → Bool
  pub dc_wake_implemented : Capabilities → Bool
  pub realtime_implemented : Capabilities → Bool
  pub realtime_accuracy_in_milliseconds : Capabilities → Bool
  pub get_wake_status_supported : Capabilities → Bool
  pub ac_s4_wake_supported : Capabilities → Bool
  pub ac_s5_wake_supported : Capabilities → Bool
  pub dc_s4_wake_supported : Capabilities → Bool
  pub dc_s5_wake_supported : Capabilities → Bool
  pub TimerStatus : Type 0
  pub timer_expired : TimerStatus → Bool
  pub timer_triggered_wake : TimerStatus → Bool
  -- `datetime.unix_timestamp() as f64`.
  pub unix_timestamp : P.Timestamp → P.F

-- `AlarmTimerSeconds` and `AlarmExpiredWakePolicy` hold one `u32`, and stand for it here.
pub record Source (P : Platform) (D : Devices P) : Type 1 where
  pub St : Type 0
  pub Error : Type 0
  -- The state after a sleep of that many nanoseconds.
  pub wait : ℕ → St → St
  pub get_temperature : St → St × Result P.F Error
  pub get_rpm : St → St × Result P.F Error
  pub get_min_rpm : St → St × Result P.F Error
  pub get_max_rpm : St → St × Result P.F Error
  pub get_threshold : Threshold → St → St × Result P.F Error
  pub set_threshold : Threshold → P.F → St → St × Result (Unit {0}) Error
  pub set_rpm : P.F → St → St × Result (Unit {0}) Error
  pub get_bst : St → St × Result D.Bst Error
  pub get_bix : St → St × Result D.Bix Error
  pub set_btp : ℕ → St → St × Result (Unit {0}) Error
  pub get_capabilities : St → St × Result D.Capabilities Error
  pub get_real_time : St → St × Result P.Timestamp Error
  pub get_wake_status : P.TimerId → St → St × Result D.TimerStatus Error
  pub get_expired_timer_wake_policy : P.TimerId → St → St × Result ℕ Error
  pub get_timer_value : P.TimerId → St → St × Result ℕ Error
  pub set_real_time : P.Timestamp → St → St × Result (Unit {0}) Error
  pub set_timer_value : P.TimerId → ℕ → St → St × Result (Unit {0}) Error
  pub set_expired_timer_wake_policy : P.TimerId → ℕ → St → St × Result (Unit {0}) Error
  pub clear_wake_status : P.TimerId → St → St × Result (Unit {0}) Error
