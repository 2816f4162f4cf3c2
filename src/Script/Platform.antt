-- ===== src/Script/Platform.antt =====
-- What ec/test-script takes from outside the repository: `f64`, Unicode's alphabetic characters,
-- and the timers and timestamps of `time_alarm_service_interface`.
use odp_platform_common.Common.{ℕ, Bool, List, Option}
use odp_platform_common.Common.Result.{Result}
use odp_platform_common.Text.{Text}

pub record Platform : Type 1 where
  -- `f64`: its parser, its comparisons, the conversion of an integer, and `as u32`.
  pub F : Type 0
  pub parse_f64 : Text → Option F
  pub eq : F → F → Bool
  pub lt : F → F → Bool
  pub le : F → F → Bool
  pub is_finite : F → Bool
  pub of_ℕ : ℕ → F
  pub to_u32 : F → ℕ
  -- `char::is_alphabetic`.
  pub is_alphabetic : ℕ → Bool
  -- `AcpiTimerId`.
  pub TimerId : Type 0
  pub ac_power : TimerId
  pub dc_power : TimerId
  -- `AcpiTimestamp::try_from_bytes`.
  pub Timestamp : Type 0
  pub TimestampError : Type 0
  pub try_from_bytes : List ℕ → Result Timestamp TimestampError
