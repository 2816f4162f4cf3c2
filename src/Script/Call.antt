-- ===== src/Script/Call.antt =====
-- Calls `<target>.<method>[(<arg>)]{.<accessor>}` (ec/test-script/src/parser.rs).
pub mod Dots
pub mod Owner
use mathlib.Core.Option
use odp_platform_common.Common.{
  ℕ, ◌+◌, ◌-◌, not, ◌&&◌, List, [], ◌∷◌, ◌++◌, Option, none, some, map, length, take, drop, ltb,
  ◌==◌, if◌then◌else◌,
}
use odp_platform_common.Common.Result.{Result, ok, err, ◌>>=◌, ◌>>◌, ok_or}
use odp_platform_common.Text.{
  Text, codes, is, is_ascii_digit, all_chars, trim, strip_suffix, split_once_at, find, rfind,
}
use odp_platform_common.Script.Platform.{Platform}
use odp_platform_common.Script.Syntax.{
  Threshold, on, ramping, max, Target, thermal, battery, rtc, Operand, Method, get_temperature,
  get_rpm, get_min_rpm, get_max_rpm, get_threshold, set_threshold, set_rpm, get_bst, get_bix,
  set_btp, get_capabilities, get_real_time, set_real_time, get_wake_status,
  get_expired_timer_wake_policy, get_timer_value, set_timer_value, set_expired_timer_wake_policy,
  clear_wake_status, Call, Message, unbalanced, expected_target_method, unknown_target,
  invalid_accessor, missing_close, malformed_call, trailing_characters, no_argument,
  requires_argument, unknown_threshold, set_threshold_takes, unknown_method, takes_timer,
}
use odp_platform_common.Script.Literal.{
  is_ident, parse_operand, parse_timer, parse_timestamp_buffer,
}

-- The loop variables of the split at top-level dots.
pub record Scan : Type 0 where
  pub parts : List Text
  pub depth : ℕ
  pub cur : Text

module _ (P : Platform) where
  open P use {TimerId}

  -- One character; the error is for a `)` with no `(` open.
  unfoldable pub scan_step : Text → Scan → ℕ → Result Scan (Message P)
  scan_step src s c =
      let pushed = s.cur ++ c ∷ [] in
      if c == b'('
      then ok (record s { depth = s.depth + 1; cur = pushed })
      else if c == b')'
      then if s.depth == 0
        then err (unbalanced src)
        else ok (record s { depth = s.depth - 1; cur = pushed })
      else if c == b'.' && s.depth == 0
      then ok (record s { parts = s.parts ++ s.cur ∷ []; cur = [] })
      else ok (record s { cur = pushed })

  unfoldable pub scan : Text → Scan → Text → Result Scan (Message P)
  unfolding scan_step
  scan src s [] = ok s
  scan src s (c ∷ rest) = do t ← scan_step src s c; scan src t rest

  unfoldable pub split_dots : Text → Result (List Text) (Message P)
  unfolding scan
  split_dots src = do
    s ← scan src (record { parts = []; depth = 0; cur = [] }) src
    if not (s.depth == 0) then err (unbalanced src) else ok (s.parts ++ s.cur ∷ [])

  unfoldable pub split_call : Text → Result (Text × Option Text) (Message P)
  unfolding find rfind trim
  split_call s = elim (find b'(' s) [
    | none ↦ ok (s, none)
    | some open_at ↦ do
      close_at ← ok_or (rfind b')' s) (missing_close s)
      if ltb close_at open_at
          then err (malformed_call s)
          else if not (close_at + 1 == length s)
          then err (trailing_characters s)
          else ok (
            trim (take open_at s),
            some (trim (take (close_at - (open_at + 1)) (drop (open_at + 1) s))),
          )
  ]

  unfoldable pub need_no_arg : Text → Option Text → Result (Unit {0}) (Message P)
  need_no_arg name none = ok tt
  need_no_arg name (some []) = ok tt
  need_no_arg name (some (c ∷ a)) = err (no_argument name (c ∷ a))

  unfoldable pub need_arg : Text → Option Text → Result Text (Message P)
  need_arg name none = err (requires_argument name)
  need_arg name (some []) = err (requires_argument name)
  need_arg name (some (c ∷ a)) = ok (c ∷ a)

  -- The error shows `shown`: `set_threshold` reports its text before it is trimmed.
  unfoldable pub threshold_of : Text → Text → Result Threshold (Message P)
  threshold_of shown a =
      if is a "on"
      then ok on
      else if is a "ramping"
      then ok ramping
      else if is a "max"
      then ok max
      else err (unknown_threshold shown)

  unfoldable pub split_timer_operand : Text → Text → Result (TimerId × Operand P) (Message P)
  unfolding split_once_at trim parse_timer parse_operand
  split_timer_operand name s = do
    (id_text, val_text) ← ok_or (split_once_at (λ c. c == b',') s) (takes_timer name s)
    id ← parse_timer P (trim id_text)
    val ← parse_operand P (trim val_text)
    ok (id, val)

  -- The rows of `build_method` for each target.
  unfoldable pub thermal_method : Text → Option Text → Result (Method P) (Message P)
  unfolding need_no_arg need_arg threshold_of split_once_at trim parse_operand
  thermal_method name arg =
      if is name "get_temperature"
      then (do need_no_arg name arg; ok get_temperature)
      else if is name "get_rpm"
      then (do need_no_arg name arg; ok get_rpm)
      else if is name "get_min_rpm"
      then (do need_no_arg name arg; ok get_min_rpm)
      else if is name "get_max_rpm"
      then (do need_no_arg name arg; ok get_max_rpm)
      else if is name "get_threshold"
      then (do a ← need_arg name arg; th ← threshold_of a a; ok (get_threshold th))
      else if is name "set_rpm"
      then (do a ← need_arg name arg; v ← parse_operand P a; ok (set_rpm v))
      else if is name "set_threshold"
      then (do
        a ← need_arg name arg
        (th_text, val_text) ← ok_or (split_once_at (λ c. c == b',') a) (set_threshold_takes a)
        th ← threshold_of th_text (trim th_text)
        v ← parse_operand P (trim val_text)
        ok (set_threshold th v))
      else err (unknown_method name thermal)

  unfoldable pub battery_method : Text → Option Text → Result (Method P) (Message P)
  unfolding need_no_arg need_arg parse_operand
  battery_method name arg =
      if is name "get_bst"
      then (do need_no_arg name arg; ok get_bst)
      else if is name "get_bix"
      then (do need_no_arg name arg; ok get_bix)
      else if is name "set_btp"
      then (do a ← need_arg name arg; v ← parse_operand P a; ok (set_btp v))
      else err (unknown_method name battery)

  -- A getter or setter whose argument is one timer.
  abbrev pub timer_method :
      (TimerId → Method P) → Text → Option Text → Result (Method P) (Message P)
  timer_method make name arg = do a ← need_arg name arg; id ← parse_timer P a; ok (make id)

  -- A setter whose arguments are a timer and a value.
  abbrev pub timer_operand_method :
      (TimerId → Operand P → Method P) → Text → Option Text → Result (Method P) (Message P)
  timer_operand_method make name arg = do
    a ← need_arg name arg
    (id, val) ← split_timer_operand name a
    ok (make id val)

  unfoldable pub rtc_method : Text → Option Text → Result (Method P) (Message P)
  unfolding need_no_arg need_arg parse_timer split_timer_operand parse_timestamp_buffer
  rtc_method name arg =
      if is name "get_capabilities"
      then (do need_no_arg name arg; ok get_capabilities)
      else if is name "get_real_time"
      then (do need_no_arg name arg; ok get_real_time)
      else if is name "set_real_time"
      then (do a ← need_arg name arg; t ← parse_timestamp_buffer P a; ok (set_real_time t))
      else if is name "get_wake_status"
      then timer_method get_wake_status name arg
      else if is name "get_expired_timer_wake_policy"
      then timer_method get_expired_timer_wake_policy name arg
      else if is name "get_timer_value"
      then timer_method get_timer_value name arg
      else if is name "set_timer_value"
      then timer_operand_method set_timer_value name arg
      else if is name "set_expired_timer_wake_policy"
      then timer_operand_method set_expired_timer_wake_policy name arg
      else if is name "clear_wake_status"
      then timer_method clear_wake_status name arg
      else err (unknown_method name rtc)

  unfoldable pub build_method : Target → Text → Option Text → Result (Method P) (Message P)
  unfolding thermal_method battery_method rtc_method
  build_method thermal = thermal_method
  build_method battery = battery_method
  build_method rtc = rtc_method

  unfoldable pub parse_target : Text → Result Target (Message P)
  parse_target s =
      if is s "thermal"
      then ok thermal
      else if is s "battery"
      then ok battery
      else if is s "rtc"
      then ok rtc
      else err (unknown_target s)

  unfoldable pub accessor_of : Text → Text
  unfolding trim strip_suffix
  accessor_of part = Option.get_or (strip_suffix (codes "()") (trim part)) (trim part)

  unfoldable pub check_accessors : List Text → Result (Unit {0}) (Message P)
  unfolding is_ident all_chars is_ascii_digit
  check_accessors [] = ok tt
  check_accessors (p ∷ ps) =
      let rest = check_accessors ps in
      if not (is_ident p) && not (all_chars is_ascii_digit p)
      then err (invalid_accessor p)
      else rest

  -- `parse_call` behind the split.
  unfoldable pub call_of_parts : Text → List Text → Result (Call P) (Message P)
  unfolding parse_target split_call build_method accessor_of check_accessors trim
  call_of_parts src [] = err (expected_target_method src)
  call_of_parts src (part ∷ []) = err (expected_target_method src)
  call_of_parts src (target_part ∷ method_part ∷ parts) = do
    target ← parse_target (trim target_part)
    (name, arg) ← split_call (trim method_part)
    method ← build_method target name arg
    check_accessors (map accessor_of parts)
    ok (record { target = target; method = method; projection = map accessor_of parts })

  unfoldable pub parse_call : Text → Result (Call P) (Message P)
  unfolding split_dots call_of_parts
  parse_call src = do parts ← split_dots src; call_of_parts src parts
