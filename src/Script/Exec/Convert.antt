-- ===== src/Script/Exec/Convert.antt =====
-- The values of the records that a source returns (ec/test-script/src/exec.rs).
use Prim.Native.String.{String}
use odp_platform_common.Common.{ℕ, List, [], ◌∷◌}
use odp_platform_common.Text.{codes}
use odp_platform_common.Script.Platform.{Platform}
use odp_platform_common.Script.Value.{Value, Fields, nil, field}
use odp_platform_common.Script.Source.{Devices}

-- `Value::Struct(vec![…])`.
abbrev pub struct_of : {P : Platform} → List (String × Value P) → Fields P
struct_of [] = nil
struct_of ((k, v) ∷ rest) = field (codes k) v (struct_of rest)

module _ (P : Platform) (D : Devices P) where
  open D use {Bst, Bix, Capabilities, TimerStatus}

  abbrev pub int : ℕ → Value P
  int n = Value.num (P.of_ℕ n)

  unfoldable pub bst_to_value : Bst → Value P
  bst_to_value b = Value.struct (
      struct_of (
        ("battery_state", int (D.battery_state b))
        ∷ ("battery_present_rate", int (D.battery_present_rate b))
        ∷ ("battery_remaining_capacity", int (D.battery_remaining_capacity b))
        ∷ ("battery_present_voltage", int (D.battery_present_voltage b))
        ∷ []))

  unfoldable pub bix_to_value : Bix → Value P
  bix_to_value b = Value.struct (
      struct_of (
        ("revision", int (D.revision b))
        ∷ ("design_capacity", int (D.design_capacity b))
        ∷ ("last_full_charge_capacity", int (D.last_full_charge_capacity b))
        ∷ ("design_voltage", int (D.design_voltage b))
        ∷ ("design_cap_of_warning", int (D.design_cap_of_warning b))
        ∷ ("design_cap_of_low", int (D.design_cap_of_low b))
        ∷ ("cycle_count", int (D.cycle_count b))
        ∷ ("measurement_accuracy", int (D.measurement_accuracy b))
        ∷ ("max_sampling_time", int (D.max_sampling_time b))
        ∷ ("min_sampling_time", int (D.min_sampling_time b))
        ∷ ("max_averaging_interval", int (D.max_averaging_interval b))
        ∷ ("min_averaging_interval", int (D.min_averaging_interval b))
        ∷ ("battery_capacity_granularity_1", int (D.battery_capacity_granularity_1 b))
        ∷ ("battery_capacity_granularity_2", int (D.battery_capacity_granularity_2 b))
        ∷ []))

  unfoldable pub caps_to_value : Capabilities → Value P
  caps_to_value c = Value.struct (
      struct_of (
        ("ac_wake_implemented", Value.bool (D.ac_wake_implemented c))
        ∷ ("dc_wake_implemented", Value.bool (D.dc_wake_implemented c))
        ∷ ("realtime_implemented", Value.bool (D.realtime_implemented c))
        ∷ ("realtime_accuracy_in_milliseconds", Value.bool (D.realtime_accuracy_in_milliseconds c))
        ∷ ("get_wake_status_supported", Value.bool (D.get_wake_status_supported c))
        ∷ ("ac_s4_wake_supported", Value.bool (D.ac_s4_wake_supported c))
        ∷ ("ac_s5_wake_supported", Value.bool (D.ac_s5_wake_supported c))
        ∷ ("dc_s4_wake_supported", Value.bool (D.dc_s4_wake_supported c))
        ∷ ("dc_s5_wake_supported", Value.bool (D.dc_s5_wake_supported c))
        ∷ []))

  unfoldable pub wake_status_to_value : TimerStatus → Value P
  wake_status_to_value s = Value.struct (
      struct_of (
        ("timer_expired", Value.bool (D.timer_expired s))
        ∷ ("timer_triggered_wake", Value.bool (D.timer_triggered_wake s))
        ∷ []))

  unfoldable pub timestamp_to_value : P.Timestamp → Value P
  timestamp_to_value t =
      let unix = Value.num (D.unix_timestamp t) in
      Value.struct (
        struct_of (
          (
            "datetime",
            Value.struct
                (struct_of (("unix_timestamp", unix) ∷ ("to_unix_time_seconds", unix) ∷ [])),
          )
          ∷ ("unix_timestamp", unix)
          ∷ []))

  unfoldable pub policy_to_value : ℕ → Value P
  policy_to_value n = Value.struct (struct_of (("0", int n) ∷ ("value", int n) ∷ []))

  unfoldable pub timer_value_to_value : ℕ → Value P
  timer_value_to_value n = Value.struct (struct_of (("0", int n) ∷ ("value", int n) ∷ []))
