-- ===== src/Serial/Device.antt =====
-- The data source over a serial port (the trait implementations of ec/test-lib/src/serial.rs, with
-- ec/test-lib/src/common.rs).
use odp_platform_common.Common.{ℕ, ◌^◌, ◌-◌, not, ◌||◌, List, Option, if◌then◌else◌}
use odp_platform_common.Common.Result.{Result, ok, ok_or}
use odp_platform_common.Common.Action.{Action, ◌>>=◌, lift}
use odp_platform_common.Text.{Text, codes}
use odp_platform_common.Script.Platform.{Platform}
use odp_platform_common.Script.Syntax.{Threshold, on, ramping, max}
use odp_platform_common.Script.Source.{Devices, Source}
use odp_platform_common.Serial.Port.{Fault, reported, unexpected_response, Port, Mctp, Relay}
use odp_platform_common.Serial.Send.{battery, thermal, time_alarm, send}

-- The arithmetic of `f64` that the temperatures need.
pub record Float (P : Platform) : Type 0 where
  pub add : P.F → P.F → P.F
  pub sub : P.F → P.F → P.F
  pub mul : P.F → P.F → P.F
  pub div : P.F → P.F → P.F
  pub round : P.F → P.F
  pub ten : P.F
  -- 273.15
  pub ice_point : P.F

-- The requests and responses of the three services, by the constructors and patterns that the
-- source uses, and the bytes of a `Uuid`.
pub record Services (P : Platform) (D : Devices P) : Type 1 where
  pub Thermal : Relay
  pub thermal_get_tmp : ℕ → Thermal.Request
  pub thermal_get_var : ℕ → ℕ → List ℕ → Thermal.Request
  pub thermal_set_var : ℕ → ℕ → List ℕ → ℕ → Thermal.Request
  pub as_get_tmp : Thermal.Response → Option ℕ
  pub as_get_var : Thermal.Response → Option ℕ
  pub as_set_var : Thermal.Response → Option (Unit {0})
  pub Battery : Relay
  pub battery_get_bst : ℕ → Battery.Request
  pub battery_get_bix : ℕ → Battery.Request
  pub battery_set_btp : ℕ → ℕ → Battery.Request
  pub as_get_bst : Battery.Response → Option D.Bst
  pub as_get_bix : Battery.Response → Option D.Bix
  pub as_set_btp : Battery.Response → Option (Unit {0})
  pub Alarm : Relay
  pub alarm_get_capabilities : Alarm.Request
  pub alarm_get_real_time : Alarm.Request
  pub alarm_get_wake_status : P.TimerId → Alarm.Request
  pub alarm_get_expired_timer_policy : P.TimerId → Alarm.Request
  pub alarm_get_timer_value : P.TimerId → Alarm.Request
  pub alarm_set_real_time : P.Timestamp → Alarm.Request
  pub alarm_set_timer_value : P.TimerId → ℕ → Alarm.Request
  pub alarm_set_expired_timer_policy : P.TimerId → ℕ → Alarm.Request
  pub alarm_clear_wake_status : P.TimerId → Alarm.Request
  pub as_capabilities : Alarm.Response → Option D.Capabilities
  pub as_real_time : Alarm.Response → Option P.Timestamp
  pub as_timer_status : Alarm.Response → Option D.TimerStatus
  pub as_wake_policy : Alarm.Response → Option ℕ
  pub as_timer_seconds : Alarm.Response → Option ℕ
  pub as_ok_no_data : Alarm.Response → Option (Unit {0})
  pub to_bytes_le : Text → List ℕ

-- `Uuid`s by their text.
abbrev pub fan_on_temp : Text
fan_on_temp = codes "ba17b567-c368-48d5-bc6f-a312a41583c1"

abbrev pub fan_ramp_temp : Text
fan_ramp_temp = codes "3a62688c-d95b-4d2d-bacc-90d7a5816bcd"

abbrev pub fan_max_temp : Text
fan_max_temp = codes "dcb758b1-f0fd-4ec7-b2c0-ef1e2a547b76"

abbrev pub fan_min_rpm : Text
fan_min_rpm = codes "db261c77-934b-45e2-9742-256c62badb7a"

abbrev pub fan_max_rpm : Text
fan_max_rpm = codes "5cf839df-8be7-42b9-9ac5-3403ca2c8a6a"

abbrev pub fan_current_rpm : Text
fan_current_rpm = codes "adf95492-0776-4ffc-84f3-b6c8b5269683"

abbrev pub threshold_guid : Threshold → Text
threshold_guid on = fan_on_temp
threshold_guid ramping = fan_ramp_temp
threshold_guid max = fan_max_temp

module _ {P : Platform} (N : Float P) where
  open P use {F, lt, le, is_finite, of_ℕ, to_u32}

  unfoldable pub dk_to_c : ℕ → F
  dk_to_c dk = N.sub (N.div (of_ℕ dk) N.ten) N.ice_point

  unfoldable pub c_to_dk : F → ℕ
  c_to_dk c =
      let dk = N.mul (N.add c N.ice_point) N.ten in
      if not (is_finite dk) || le dk (of_ℕ 0)
      then 0
      else if le (of_ℕ (2 ^ 32 - 1)) dk
      then 2 ^ 32 - 1
      else to_u32 (N.round dk)

-- `if let <pattern> = response { Ok(…) } else { Err(UnexpectedResponse) }`.
abbrev pub expect : {R A : Type 0} → (R → Option A) → R → Result A Fault
expect as_a response = ok_or (as_a response) (reported unexpected_response)

module _ (P : Platform) (D : Devices P) (N : Float P) (V : Services P D) (T : Port) (M : Mctp) where
  open P use {F, of_ℕ, to_u32}
  open T use {St}

  -- `send` on each service, and the test of the response's constructor.
  abbrev pub ask_thermal :
      {A : Type 0} → ℕ → V.Thermal.Request → (V.Thermal.Response → Option A) → Action St Fault A
  ask_thermal fuel request as_a = do
    response ← send T M V.Thermal fuel thermal request
    lift (expect as_a response)

  abbrev pub ask_battery :
      {A : Type 0} → ℕ → V.Battery.Request → (V.Battery.Response → Option A) → Action St Fault A
  ask_battery fuel request as_a = do
    response ← send T M V.Battery fuel battery request
    lift (expect as_a response)

  abbrev pub ask_alarm :
      {A : Type 0} → ℕ → V.Alarm.Request → (V.Alarm.Response → Option A) → Action St Fault A
  ask_alarm fuel request as_a = do
    response ← send T M V.Alarm fuel time_alarm request
    lift (expect as_a response)

  module _ (fuel sensor_instance fan_instance : ℕ) where
    -- The values are numbers of the wire; `val as f64` is `of_ℕ`.
    unfoldable pub thermal_get_var : Text → Action St Fault ℕ
    unfolding send
    thermal_get_var guid =
        ask_thermal fuel (V.thermal_get_var fan_instance 4 (V.to_bytes_le guid)) V.as_get_var

    unfoldable pub thermal_set_var : Text → ℕ → Action St Fault (Unit {0})
    unfolding send
    thermal_set_var guid raw =
        ask_thermal fuel (V.thermal_set_var fan_instance 4 (V.to_bytes_le guid) raw) V.as_set_var

    abbrev pub as_number : Action St Fault ℕ → (ℕ → F) → Action St Fault F
    as_number read number = do raw ← read; lift (ok (number raw))

    unfoldable pub serial_source : Source P D
    unfolding send thermal_get_var thermal_set_var dk_to_c c_to_dk
    serial_source = record {
      St = St;
      Error = Fault;
      wait = λ d st. st;
      get_temperature =
          as_number (ask_thermal fuel (V.thermal_get_tmp sensor_instance) V.as_get_tmp) (dk_to_c N);
      get_rpm = as_number (thermal_get_var fan_current_rpm) of_ℕ;
      get_min_rpm = as_number (thermal_get_var fan_min_rpm) of_ℕ;
      get_max_rpm = as_number (thermal_get_var fan_max_rpm) of_ℕ;
      get_threshold = λ t.
          as_number (thermal_get_var (threshold_guid t)) (λ raw. dk_to_c N (to_u32 (of_ℕ raw)));
      set_threshold = λ t value. thermal_set_var (threshold_guid t) (c_to_dk N value);
      set_rpm = λ rpm. thermal_set_var fan_current_rpm (to_u32 rpm);
      get_bst = ask_battery fuel (V.battery_get_bst 0) V.as_get_bst;
      get_bix = ask_battery fuel (V.battery_get_bix 0) V.as_get_bix;
      set_btp = λ trip_point. ask_battery fuel (V.battery_set_btp 0 trip_point) V.as_set_btp;
      get_capabilities = ask_alarm fuel V.alarm_get_capabilities V.as_capabilities;
      get_real_time = ask_alarm fuel V.alarm_get_real_time V.as_real_time;
      get_wake_status = λ id. ask_alarm fuel (V.alarm_get_wake_status id) V.as_timer_status;
      get_expired_timer_wake_policy =
          λ id. ask_alarm fuel (V.alarm_get_expired_timer_policy id) V.as_wake_policy;
      get_timer_value = λ id. ask_alarm fuel (V.alarm_get_timer_value id) V.as_timer_seconds;
      set_real_time = λ t. ask_alarm fuel (V.alarm_set_real_time t) V.as_ok_no_data;
      set_timer_value = λ id v. ask_alarm fuel (V.alarm_set_timer_value id v) V.as_ok_no_data;
      set_expired_timer_wake_policy =
          λ id v. ask_alarm fuel (V.alarm_set_expired_timer_policy id v) V.as_ok_no_data;
      clear_wake_status = λ id. ask_alarm fuel (V.alarm_clear_wake_status id) V.as_ok_no_data;
    }
