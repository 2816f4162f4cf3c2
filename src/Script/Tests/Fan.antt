-- ===== src/Script/Tests/Fan.antt =====
-- A concrete platform, devices and data source for the tests of the script crate: `f64` is played
-- by the natural numbers.
use odp_platform_common.Common.{ℕ, Bool, true, false, List, leb, ltb, ◌==◌}
use odp_platform_common.Common.Result.{ok, err}
use odp_platform_common.Script.Platform.{Platform}
use odp_platform_common.Script.Source.{Devices, Source}
use odp_platform_common.Script.Literal.{from_str_radix}

abbrev pub demo : Platform
demo = record {
  F = ℕ;
  parse_f64 = from_str_radix 1_000_000 10;
  eq = λ a b. a == b;
  lt = ltb;
  le = leb;
  is_finite = λ a. true;
  of_ℕ = λ n. n;
  to_u32 = λ a. a;
  is_alphabetic = λ c. leb 97 c;
  TimerId = Bool;
  ac_power = true;
  dc_power = false;
  Timestamp = List ℕ;
  TimestampError = Unit {0};
  try_from_bytes = ok;
}

abbrev pub devices : Devices demo
devices = record {
  Bst = Unit;
  battery_state = λ x. 0;
  battery_present_rate = λ x. 0;
  battery_remaining_capacity = λ x. 0;
  battery_present_voltage = λ x. 0;
  Bix = Unit;
  revision = λ x. 0;
  design_capacity = λ x. 0;
  last_full_charge_capacity = λ x. 0;
  design_voltage = λ x. 0;
  design_cap_of_warning = λ x. 0;
  design_cap_of_low = λ x. 0;
  cycle_count = λ x. 0;
  measurement_accuracy = λ x. 0;
  max_sampling_time = λ x. 0;
  min_sampling_time = λ x. 0;
  max_averaging_interval = λ x. 0;
  min_averaging_interval = λ x. 0;
  battery_capacity_granularity_1 = λ x. 0;
  battery_capacity_granularity_2 = λ x. 0;
  Capabilities = Unit;
  ac_wake_implemented = λ x. true;
  dc_wake_implemented = λ x. true;
  realtime_implemented = λ x. true;
  realtime_accuracy_in_milliseconds = λ x. true;
  get_wake_status_supported = λ x. true;
  ac_s4_wake_supported = λ x. true;
  ac_s5_wake_supported = λ x. true;
  dc_s4_wake_supported = λ x. true;
  dc_s5_wake_supported = λ x. true;
  TimerStatus = Unit;
  timer_expired = λ x. true;
  timer_triggered_wake = λ x. true;
  unix_timestamp = λ t. 0;
}

-- A fan whose speed is the state.
abbrev pub fan : Source demo devices
fan = record {
  St = ℕ;
  Error = Unit;
  wait = λ d st. st;
  get_temperature = λ st. (st, ok 40);
  get_rpm = λ st. (st, ok st);
  get_min_rpm = λ st. (st, ok 10);
  get_max_rpm = λ st. (st, ok 90);
  get_threshold = λ t st. (st, err tt);
  set_threshold = λ t v st. (st, ok tt);
  set_rpm = λ v st. (v, ok tt);
  get_bst = λ st. (st, ok tt);
  get_bix = λ st. (st, ok tt);
  set_btp = λ v st. (st, ok tt);
  get_capabilities = λ st. (st, ok tt);
  get_real_time = λ st. (st, err tt);
  get_wake_status = λ i st. (st, ok tt);
  get_expired_timer_wake_policy = λ i st. (st, ok 0);
  get_timer_value = λ i st. (st, ok 0);
  set_real_time = λ t st. (st, ok tt);
  set_timer_value = λ i v st. (st, ok tt);
  set_expired_timer_wake_policy = λ i v st. (st, ok tt);
  clear_wake_status = λ i st. (st, ok tt);
}
