-- ===== src/Script/Syntax.antt =====
-- The statements of a script (ec/test-script/src/parser.rs), and the messages of its parser, one
-- constructor for each text that the source formats, with what the text shows.
use odp_platform_common.Common.{ℕ, Bool, List}
use odp_platform_common.Text.{Text}
use odp_platform_common.Script.Platform.{Platform}

pub data Threshold : Type 0 where
  on ramping max : Threshold

pub data Target : Type 0 where
  thermal battery rtc : Target

pub data Operand (P : Platform) : Type 0 where
  num : P.F → Operand P
  bool : Bool → Operand P
  var : Text → Operand P

pub data Method (P : Platform) : Type 0 where
  get_temperature get_rpm get_min_rpm get_max_rpm : Method P
  get_threshold : Threshold → Method P
  set_threshold : Threshold → Operand P → Method P
  set_rpm : Operand P → Method P
  get_bst get_bix : Method P
  set_btp : Operand P → Method P
  get_capabilities get_real_time : Method P
  set_real_time : P.Timestamp → Method P
  get_wake_status : P.TimerId → Method P
  get_expired_timer_wake_policy : P.TimerId → Method P
  get_timer_value : P.TimerId → Method P
  set_timer_value : P.TimerId → Operand P → Method P
  set_expired_timer_wake_policy : P.TimerId → Operand P → Method P
  clear_wake_status : P.TimerId → Method P

pub record Call (P : Platform) : Type 0 where
  pub target : Target
  pub method : Method P
  pub projection : List Text

pub data Verb (P : Platform) : Type 0 where
  eq ne gt ge lt le : Operand P → Verb P
  in_range : P.F → P.F → Bool → Verb P
  is_ok is_err : Verb P
  ok_eq ok_gt ok_ge ok_lt ok_le : Operand P → Verb P
  ok_in_range : P.F → P.F → Bool → Verb P

-- A `Duration` is its length in nanoseconds.
pub data Stmt (P : Platform) : Type 0 where
  check : ℕ → Text → Call P → Verb P → Stmt P
  let_call : ℕ → Text → Text → Call P → Stmt P
  sleep : ℕ → ℕ → Stmt P

pub data Message (P : Platform) : Type 0 where
  unterminated let_needs_call invalid_variable expected_arrow : Text → Message P
  unbalanced expected_target_method unknown_target invalid_accessor : Text → Message P
  missing_close malformed_call trailing_characters : Text → Message P
  no_argument : Text → Text → Message P
  requires_argument unknown_threshold set_threshold_takes : Text → Message P
  unknown_method : Text → Target → Message P
  buffer_syntax buffer_size : Message P
  buffer_bytes milliseconds_range : ℕ → Message P
  invalid_timestamp : P.TimestampError → Message P
  expected_byte byte_range unknown_timer : Text → Message P
  takes_timer : Text → Text → Message P
  verb_needs_operand verb_needs_range unknown_verb : Text → Message P
  expected_operand expected_number expected_range : Text → Message P
  bad_duration unknown_unit : Text → Message P

pub record ParseError (P : Platform) : Type 0 where
  pub line : ℕ
  pub message : Message P
