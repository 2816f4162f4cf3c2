-- ===== src/Script/Exec/Serves.antt =====
-- What every method of a data source keeps of its state, every script keeps.
use odp_platform_common.Common.{ℕ, List, [], ◌∷◌, ◌≡◌, subst}
use odp_platform_common.Common.Result.{Result, ok, err, ok-injective, >>=-eq-ok}
use odp_platform_common.Script.Parser.{parse}
use odp_platform_common.Text.{Text}
use odp_platform_common.Script.Platform.{Platform}
use odp_platform_common.Script.Source.{Devices, Source}
use odp_platform_common.Script.Syntax.{
  Threshold, Stmt, sleep, let_call, check, Method, get_temperature, get_rpm, get_min_rpm,
  get_max_rpm, get_threshold, set_rpm, set_threshold, get_bst, get_bix, set_btp, get_capabilities,
  get_real_time, set_real_time, get_wake_status, get_expired_timer_wake_policy, get_timer_value,
  set_timer_value, set_expired_timer_wake_policy, clear_wake_status,
}
use odp_platform_common.Script.Value.{Value, Failure}
use odp_platform_common.Script.Verbs.{Env}
use odp_platform_common.Script.Exec.{
  call_setter, invoke, eval_call, World, finish_let, execute, execute_all, run_script, new, Summary,
  num_arg, u32_arg,
}

module _ {P : Platform} {D : Devices P} (S : Source P D) (I : S.St → Type 0) where
  open S use {St, Error}

  -- A method that answers, and keeps the property.
  abbrev pub Answers : {A : Type 0} → St × Result A Error → Type 0
  Answers {A} r = I r.0 × ((a : A) × (r.1 ≡ ok a))

  -- Every method does.
  pub record Serves : Type 0 where
    pub wait : (d : ℕ) (st : St) → I st → I (S.wait d st)
    pub get_temperature : (st : St) → I st → Answers (S.get_temperature st)
    pub get_rpm : (st : St) → I st → Answers (S.get_rpm st)
    pub get_min_rpm : (st : St) → I st → Answers (S.get_min_rpm st)
    pub get_max_rpm : (st : St) → I st → Answers (S.get_max_rpm st)
    pub get_threshold : (t : Threshold) (st : St) → I st → Answers (S.get_threshold t st)
    pub set_threshold :
        (t : Threshold) (v : P.F) (st : St) → I st → Answers (S.set_threshold t v st)
    pub set_rpm : (v : P.F) (st : St) → I st → Answers (S.set_rpm v st)
    pub get_bst : (st : St) → I st → Answers (S.get_bst st)
    pub get_bix : (st : St) → I st → Answers (S.get_bix st)
    pub set_btp : (v : ℕ) (st : St) → I st → Answers (S.set_btp v st)
    pub get_capabilities : (st : St) → I st → Answers (S.get_capabilities st)
    pub get_real_time : (st : St) → I st → Answers (S.get_real_time st)
    pub set_real_time : (t : P.Timestamp) (st : St) → I st → Answers (S.set_real_time t st)
    pub get_wake_status : (id : P.TimerId) (st : St) → I st → Answers (S.get_wake_status id st)
    pub get_expired_timer_wake_policy :
        (id : P.TimerId) (st : St) → I st → Answers (S.get_expired_timer_wake_policy id st)
    pub get_timer_value : (id : P.TimerId) (st : St) → I st → Answers (S.get_timer_value id st)
    pub set_timer_value :
        (id : P.TimerId) (v : ℕ) (st : St) → I st → Answers (S.set_timer_value id v st)
    pub set_expired_timer_wake_policy :
        (id : P.TimerId) (v : ℕ) (st : St)
        → I st
        → Answers (S.set_expired_timer_wake_policy id v st)
    pub clear_wake_status : (id : P.TimerId) (st : St) → I st → Answers (S.clear_wake_status id st)

  setter-keeps :
      {A : Type 0} (argument : Result A (Failure P Error))
      (set : A → St → St × Result (Unit {0}) Error) (st : St)
      → ((a : A) → I (set a st).0)
      → I st
      → I (call_setter argument set st).0
  setter-keeps (ok a) set st k i = k a
  setter-keeps (err e) set st k i = i

  module _ (s : Serves) where
    invoke-keeps :
        (method : Method P) (env : Env P) (st : St) → I st → I (invoke P D S method env st).0
    unfolding invoke
    invoke-keeps get_temperature env st i = (s.get_temperature st i).0
    invoke-keeps get_rpm env st i = (s.get_rpm st i).0
    invoke-keeps get_min_rpm env st i = (s.get_min_rpm st i).0
    invoke-keeps get_max_rpm env st i = (s.get_max_rpm st i).0
    invoke-keeps (get_threshold t) env st i = (s.get_threshold t st i).0
    invoke-keeps (set_rpm v) env st i =
        setter-keeps (num_arg v env) S.set_rpm st (λ a. (s.set_rpm a st i).0) i
    invoke-keeps (set_threshold t v) env st i =
        setter-keeps (num_arg v env) (S.set_threshold t) st (λ a. (s.set_threshold t a st i).0) i
    invoke-keeps get_bst env st i = (s.get_bst st i).0
    invoke-keeps get_bix env st i = (s.get_bix st i).0
    invoke-keeps (set_btp v) env st i =
        setter-keeps (u32_arg v env) S.set_btp st (λ a. (s.set_btp a st i).0) i
    invoke-keeps get_capabilities env st i = (s.get_capabilities st i).0
    invoke-keeps get_real_time env st i = (s.get_real_time st i).0
    invoke-keeps (set_real_time t) env st i = (s.set_real_time t st i).0
    invoke-keeps (get_wake_status id) env st i = (s.get_wake_status id st i).0
    invoke-keeps (get_expired_timer_wake_policy id) env st i =
        (s.get_expired_timer_wake_policy id st i).0
    invoke-keeps (get_timer_value id) env st i = (s.get_timer_value id st i).0
    invoke-keeps (set_timer_value id v) env st i =
        setter-keeps (u32_arg v env) (S.set_timer_value id) st
          (λ a. (s.set_timer_value id a st i).0) i
    invoke-keeps (set_expired_timer_wake_policy id v) env st i =
        setter-keeps (u32_arg v env) (S.set_expired_timer_wake_policy id) st
          (λ a. (s.set_expired_timer_wake_policy id a st i).0) i
    invoke-keeps (clear_wake_status id) env st i = (s.clear_wake_status id st i).0

    finish_let-keeps :
        (line : ℕ) (src name : Text) (r : Result (Value P) (Failure P Error)) (w : World P D S)
        → I w.source
        → I (finish_let P D S line src name r w).source
    unfolding finish_let
    finish_let-keeps line src name (ok v) w i = i
    finish_let-keeps line src name (err e) w i = i

    execute-keeps : (stmt : Stmt P) (w : World P D S) → I w.source → I (execute P D S stmt w).source
    unfolding execute eval_call
    execute-keeps (sleep line duration) w i = s.wait duration w.source i
    execute-keeps (let_call line src name call) w i =
        finish_let-keeps line src name _ _ (invoke-keeps call.method w.env w.source i)
    execute-keeps (check line src call verb) w i = invoke-keeps call.method w.env w.source i

    pub execute_all-keeps :
        (stmts : List (Stmt P)) (w : World P D S)
        → I w.source
        → I (execute_all P D S stmts w).source
    unfolding execute_all
    execute_all-keeps [] w i = i
    execute_all-keeps (stmt ∷ rest) w i = execute_all-keeps rest _ (execute-keeps stmt w i)

    -- What every method of the source keeps of its state holds of it after every script that
    -- parses, if it held before.
    pub run_script-keeps :
        (st : St) (script : Text) {w : World P D S} {sum : Summary}
        → run_script P D S st script ≡ ok (w, sum)
        → I st
        → I w.source
    unfolding run_script
    run_script-keeps st script h i =
        let (stmts, parsed, e) = >>=-eq-ok (parse P script) _ h in
        subst (λ (r : World P D S × Summary). I r.0.source) (ok-injective e)
          (execute_all-keeps stmts (record { source = st; env = []; runner = new }) i)
