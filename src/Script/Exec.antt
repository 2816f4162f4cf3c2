-- ===== src/Script/Exec.antt =====
-- The executor of statements (ec/test-script/src/exec.rs), the pass and fail counters
-- (ec/test-script/src/runner.rs) and `run_script` (ec/test-script/src/lib.rs).
mod Convert
pub mod Rows
pub mod Serves
use odp_platform_common.Common.{
  ℕ, ◌+◌, ◌%◌, ◌^◌, Bool, true, false, not, ◌&&◌, ◌||◌, List, [], ◌∷◌, ◌++◌, ◌==◌, if◌then◌else◌,
}
use odp_platform_common.Common.Result.{Result, ok, err, ◌>>=◌, ok_or, map_ok, map_err}
use odp_platform_common.Text.{Text}
use odp_platform_common.Script.Platform.{Platform}
use odp_platform_common.Script.Syntax.{
  Operand, Method, get_temperature, get_rpm, get_min_rpm, get_max_rpm, get_threshold, set_threshold,
  set_rpm, get_bst, get_bix, set_btp, get_capabilities, get_real_time, set_real_time,
  get_wake_status, get_expired_timer_wake_policy, get_timer_value, set_timer_value,
  set_expired_timer_wake_policy, clear_wake_status, Call, Stmt, check, let_call, sleep, ParseError,
}
use odp_platform_common.Script.Value.{
  Value, unit, Failure, source_error, setter_got_bool, undefined_variable, out_of_u32_range, as_num,
  project,
}
use odp_platform_common.Script.Source.{Devices, Source}
use odp_platform_common.Script.Verbs.{
  Env, env_get, env_insert, Detail, bound, not_bound, apply_verb,
}
use odp_platform_common.Script.Parser.{parse}
use Convert.{
  bst_to_value, bix_to_value, caps_to_value, wake_status_to_value, timestamp_to_value,
  policy_to_value, timer_value_to_value,
}

pub data Outcome : Type 0 where
  pass fail : Outcome

-- A row that `record` prints.
pub record Row (P : Platform) (E : Type 0) : Type 0 where
  pub line : ℕ
  pub name : Text
  pub outcome : Outcome
  pub detail : Detail P E

-- `Runner`, with the rows printed so far. The counters are `u32`.
pub record Runner (P : Platform) (E : Type 0) : Type 0 where
  pub passed : ℕ
  pub failed : ℕ
  pub printed : List (Row P E)

pub record Summary : Type 0 where
  pub passed : ℕ
  pub failed : ℕ

abbrev pub u32 : ℕ → ℕ
u32 n = n % 2 ^ 32

unfoldable pub total : Summary → ℕ
total s = u32 (s.passed + s.failed)

unfoldable pub all_passed : Summary → Bool
all_passed s = s.failed == 0

module _ {P : Platform} {E : Type 0} where
  unfoldable pub new : Runner P E
  new = record { passed = 0; failed = 0; printed = [] }

  unfoldable pub record_row : ℕ → Text → Outcome → Detail P E → Runner P E → Runner P E
  record_row line name pass detail r = record r {
    passed = u32 (r.passed + 1);
    printed =
        r.printed ++ record { line = line; name = name; outcome = pass; detail = detail } ∷ [];
  }
  record_row line name fail detail r = record r {
    failed = u32 (r.failed + 1);
    printed =
        r.printed ++ record { line = line; name = name; outcome = fail; detail = detail } ∷ [];
  }

  unfoldable pub into_summary : Runner P E → Summary
  into_summary r = record { passed = r.passed; failed = r.failed }

module _ {P : Platform} {E : Type 0} where
  open P use {F, lt, is_finite, of_ℕ, to_u32}

  unfoldable pub num_arg : Operand P → Env P → Result F (Failure P E)
  unfolding env_get as_num
  num_arg (Operand.num n) env = ok n
  num_arg (Operand.bool b) env = err setter_got_bool
  num_arg (Operand.var name) env = do
    v ← ok_or (env_get name env) (undefined_variable name)
    as_num v

  unfoldable pub u32_arg : Operand P → Env P → Result ℕ (Failure P E)
  unfolding num_arg
  u32_arg op env = do
    n ← num_arg op env
    if not (is_finite n) || lt n (of_ℕ 0) || lt (of_ℕ 4_294_967_295) n
        then err (out_of_u32_range n)
        else ok (to_u32 n)

-- A call of the source, its result mapped to a value and its error shown.
abbrev pub call_source :
    {P : Platform} {E S A : Type 0}
    → (A → Value P)
    → S × Result A E
    → S × Result (Value P) (Failure P E)
call_source f (st, r) = (st, map_err source_error (map_ok f r))

-- A setter: its argument is read first, and a bad one leaves the source alone.
abbrev pub call_setter :
    {P : Platform} {E S A : Type 0}
    → Result A (Failure P E)
    → (A → S → S × Result (Unit {0}) E)
    → S
    → S × Result (Value P) (Failure P E)
call_setter (ok a) set st = call_source (λ _. unit) (set a st)
call_setter (err e) set st = (st, err e)

module _ (P : Platform) (D : Devices P) (S : Source P D) where
  open S use {St, Error}

  unfoldable pub invoke : Method P → Env P → St → St × Result (Value P) (Failure P Error)
  unfolding num_arg u32_arg bst_to_value bix_to_value caps_to_value wake_status_to_value
      timestamp_to_value policy_to_value timer_value_to_value
  invoke get_temperature env st = call_source Value.num (S.get_temperature st)
  invoke get_rpm env st = call_source Value.num (S.get_rpm st)
  invoke get_min_rpm env st = call_source Value.num (S.get_min_rpm st)
  invoke get_max_rpm env st = call_source Value.num (S.get_max_rpm st)
  invoke (get_threshold t) env st = call_source Value.num (S.get_threshold t st)
  invoke (set_rpm rpm) env st = call_setter (num_arg rpm env) S.set_rpm st
  invoke (set_threshold t v) env st = call_setter (num_arg v env) (S.set_threshold t) st
  invoke get_bst env st = call_source (bst_to_value P D) (S.get_bst st)
  invoke get_bix env st = call_source (bix_to_value P D) (S.get_bix st)
  invoke (set_btp v) env st = call_setter (u32_arg v env) S.set_btp st
  invoke get_capabilities env st = call_source (caps_to_value P D) (S.get_capabilities st)
  invoke get_real_time env st = call_source (timestamp_to_value P D) (S.get_real_time st)
  invoke (set_real_time t) env st = call_source (λ _. unit) (S.set_real_time t st)
  invoke (get_wake_status id) env st =
      call_source (wake_status_to_value P D) (S.get_wake_status id st)
  invoke (get_expired_timer_wake_policy id) env st =
      call_source (policy_to_value P D) (S.get_expired_timer_wake_policy id st)
  invoke (get_timer_value id) env st =
      call_source (timer_value_to_value P D) (S.get_timer_value id st)
  invoke (set_timer_value id v) env st = call_setter (u32_arg v env) (S.set_timer_value id) st
  invoke (set_expired_timer_wake_policy id v) env st =
      call_setter (u32_arg v env) (S.set_expired_timer_wake_policy id) st
  invoke (clear_wake_status id) env st = call_source (λ _. unit) (S.clear_wake_status id st)

  unfoldable pub eval_call : Call P → Env P → St → St × Result (Value P) (Failure P Error)
  unfolding invoke project
  eval_call c env st =
      let (st', r) = invoke c.method env st in (st', (do v ← r; project v c.projection))

  -- What a statement may change.
  pub record World : Type 0 where
    pub source : St
    pub env : Env P
    pub runner : Runner P Error

  unfoldable pub finish_let : ℕ → Text → Text → Result (Value P) (Failure P Error) → World → World
  unfolding env_insert record_row
  finish_let line src name (ok v) w = record w {
    env = env_insert name v w.env;
    runner = record_row line src pass (bound name v) w.runner;
  }
  finish_let line src name (err e) w = record w {
    runner = record_row line src fail (not_bound name e) w.runner;
  }

  unfoldable pub execute : Stmt P → World → World
  unfolding finish_let eval_call apply_verb record_row
  execute (sleep line duration) w = record w { source = S.wait duration w.source }
  execute (let_call line src name call) w =
      let (st, result) = eval_call call w.env w.source in
      finish_let line src name result (record w { source = st })
  execute (check line src call verb) w =
      let (st, result) = eval_call call w.env w.source in
      let (passed, detail) = apply_verb P verb result w.env in
      record w {
        source = st;
        runner = record_row line src (if passed then pass else fail) detail w.runner;
      }

  unfoldable pub execute_all : List (Stmt P) → World → World
  unfolding execute
  execute_all [] w = w
  execute_all (s ∷ rest) w = execute_all rest (execute s w)

  -- `run_script`, with the rows printed and the source's last state.
  unfoldable pub run_script : St → Text → Result (World × Summary) (ParseError P)
  unfolding parse execute_all new into_summary
  run_script st script = do
    stmts ← parse P script
    let w = execute_all stmts (record { source = st; env = []; runner = new })
    ok (w, into_summary w.runner)
