-- ===== src/Script/Exec/Rows.antt =====
-- The rows that a run prints, against the statements of the script.
use odp_platform_common.Common.{
  ℕ, ◌+◌, ◌^◌, ◌<◌, ◌≡◌, ◌↔◌, refl, sym, ap, subst, ◌∙◌, Bool, false, if◌then◌else◌, true, List, [],
  ◌∷◌, ◌++◌, append-nil, append_assoc, length, arith,
}
use odp_platform_common.Common.Result.{Result, ok, err, >>=-eq-ok, ok-injective}
use odp_platform_common.Text.{Text}
use odp_platform_common.Script.Platform.{Platform}
use odp_platform_common.Script.Syntax.{Stmt, Call, Verb, check, let_call, sleep}
use odp_platform_common.Script.Value.{Value, Failure}
use odp_platform_common.Script.Source.{Devices, Source}
use odp_platform_common.Script.Parser.{parse}
use odp_platform_common.Script.Verbs.{Detail, bound, not_bound, apply_verb, env_insert}
use odp_platform_common.Script.Verbs.Meaning.{Holds, apply_verb-Holds}
use odp_platform_common.Script.Exec.{
  eval_call, Outcome, pass, fail, Row, Runner, World, Summary, u32, new, record_row, into_summary,
  finish_let, execute, execute_all, run_script, total, all_passed,
}

abbrev row : {P : Platform} {E : Type 0} → ℕ → Text → Outcome → Detail P E → Row P E
row line name outcome detail = record {
  line = line;
  name = name;
  outcome = outcome;
  detail = detail;
}

-- The lines of the statements that report a row: all but `sleep`.
abbrev pub reporting : {P : Platform} → List (Stmt P) → List (ℕ × Text)
reporting [] = []
reporting (sleep line d ∷ rest) = reporting rest
reporting (let_call line src name call ∷ rest) = (line, src) ∷ reporting rest
reporting (check line src call verb ∷ rest) = (line, src) ∷ reporting rest

module _ {P : Platform} {E : Type 0} where
  abbrev pub row_names : List (Row P E) → List (ℕ × Text)
  row_names [] = []
  row_names (r ∷ rest) = (r.line, r.name) ∷ row_names rest

  abbrev pub passes : List (Row P E) → ℕ
  passes [] = 0
  passes (r ∷ rest) = elim r.outcome [ pass ↦ 1 | fail ↦ 0 ] + passes rest

  abbrev pub fails : List (Row P E) → ℕ
  fails [] = 0
  fails (r ∷ rest) = elim r.outcome [ pass ↦ 0 | fail ↦ 1 ] + fails rest

  row_names-append : (xs ys : List (Row P E)) → row_names (xs ++ ys) ≡ row_names xs ++ row_names ys
  row_names-append [] ys = refl
  row_names-append (x ∷ xs) ys = ap (◌∷◌ (x.line, x.name)) (row_names-append xs ys)

  passes-append : (xs ys : List (Row P E)) → passes (xs ++ ys) ≡ passes xs + passes ys
  passes-append [] ys = omega arith
  passes-append (x ∷ xs) ys = omega (arith, passes-append xs ys)

  fails-append : (xs ys : List (Row P E)) → fails (xs ++ ys) ≡ fails xs + fails ys
  fails-append [] ys = omega arith
  fails-append (x ∷ xs) ys = omega (arith, fails-append xs ys)

  -- The counters agree with the rows printed.
  pub record Tallies (r : Runner P E) : Type 0 where
    pub passed_is : r.passed ≡ u32 (passes r.printed)
    pub failed_is : r.failed ≡ u32 (fails r.printed)

  record_row-Tallies :
      (line : ℕ) (name : Text) (o : Outcome) (d : _) (r : Runner P E)
      → Tallies r
      → Tallies (record_row line name o d r)
  unfolding record_row
  record_row-Tallies line name pass d r t = record {
    passed_is = omega (arith, passes-append r.printed, t);
    failed_is = omega (arith, fails-append r.printed, t);
  }
  record_row-Tallies line name fail d r t = record {
    passed_is = omega (arith, passes-append r.printed, t);
    failed_is = omega (arith, fails-append r.printed, t);
  }

  printed-record_row :
      (line : ℕ) (name : Text) (o : Outcome) (d : _) (r : Runner P E)
      → row_names (record_row line name o d r).printed ≡ row_names r.printed ++ (line, name) ∷ []
  unfolding record_row
  printed-record_row line name pass d r = row_names-append r.printed _
  printed-record_row line name fail d r = row_names-append r.printed _

module _ (P : Platform) (D : Devices P) (S : Source P D) where
  finish_let-Tallies :
      (line : ℕ) (src name : Text) (r : Result (Value P) (Failure P S.Error)) (w : World P D S)
      → Tallies w.runner
      → Tallies (finish_let P D S line src name r w).runner
  unfolding finish_let
  finish_let-Tallies line src name (ok v) w = record_row-Tallies line src pass _ w.runner
  finish_let-Tallies line src name (err e) w = record_row-Tallies line src fail _ w.runner

  printed-finish_let :
      (line : ℕ) (src name : Text) (r : Result (Value P) (Failure P S.Error)) (w : World P D S)
      → row_names (finish_let P D S line src name r w).runner.printed
        ≡ row_names w.runner.printed ++ (line, src) ∷ []
  unfolding finish_let
  printed-finish_let line src name (ok v) w = printed-record_row line src pass _ w.runner
  printed-finish_let line src name (err e) w = printed-record_row line src fail _ w.runner

  execute-Tallies :
      (s : Stmt P) (w : World P D S) → Tallies w.runner → Tallies (execute P D S s w).runner
  unfolding execute
  execute-Tallies (sleep line d) w t = t
  execute-Tallies (check line src call verb) w t = record_row-Tallies line src _ _ w.runner t
  execute-Tallies (let_call line src name call) w t = finish_let-Tallies line src name _ _ t

  printed-execute :
      (s : Stmt P) (w : World P D S)
      → row_names (execute P D S s w).runner.printed
        ≡ row_names w.runner.printed ++ reporting (s ∷ [])
  unfolding execute
  printed-execute (sleep line d) w = sym (append-nil _)
  printed-execute (check line src call verb) w = printed-record_row line src _ _ w.runner
  printed-execute (let_call line src name call) w = printed-finish_let line src name _ _

  -- Running statements keeps the counters and the printed rows in agreement.
  execute_all-Tallies :
      (ss : List (Stmt P)) (w : World P D S)
      → Tallies w.runner
      → Tallies (execute_all P D S ss w).runner
  unfolding execute_all
  execute_all-Tallies [] w t = t
  execute_all-Tallies (s ∷ ss) w t =
      execute_all-Tallies ss (execute P D S s w) (execute-Tallies s w t)

  reporting-cons :
      (s : Stmt P) (ss : List (Stmt P)) → reporting (s ∷ ss) ≡ reporting (s ∷ []) ++ reporting ss
  reporting-cons (sleep line d) ss = refl
  reporting-cons (let_call line src name call) ss = refl
  reporting-cons (check line src call verb) ss = refl

  printed-execute_all :
      (ss : List (Stmt P)) (w : World P D S)
      → row_names (execute_all P D S ss w).runner.printed
        ≡ row_names w.runner.printed ++ reporting ss
  unfolding execute_all
  printed-execute_all [] w = sym (append-nil _)
  printed-execute_all (s ∷ ss) w =
      printed-execute_all ss (execute P D S s w)
      ∙ rw (printed-execute s w, reporting-cons s ss)
          (append_assoc (row_names w.runner.printed) (reporting (s ∷ [])) (reporting ss))

  -- One statement, run: a sleep only lets time pass, and any other calls the source, binds the value of
  -- the call, if it is to, and prints one row. A check passes where its verb holds of the result, and
  -- a binding where the call has a value.
  pub data Ran : Stmt P → World P D S → World P D S → Type 0 where
    slept :
        {line d : ℕ} {w : World P D S}
        → Ran (sleep line d) w (record w { source = S.wait d w.source })
    bound_to :
        {line : ℕ} {src name : Text} {call : Call P} {v : Value P} {w w' : World P D S}
        → eval_call P D S call w.env w.source ≡ (w'.source, ok v)
        → w'.env ≡ env_insert name v w.env
        → w'.runner.printed ≡ w.runner.printed ++ row line src pass (bound name v) ∷ []
        → Ran (let_call line src name call) w w'
    unbound :
        {line : ℕ} {src name : Text} {call : Call P} {e : Failure P S.Error} {w w' : World P D S}
        → eval_call P D S call w.env w.source ≡ (w'.source, err e)
        → w'.env ≡ w.env
        → w'.runner.printed ≡ w.runner.printed ++ row line src fail (not_bound name e) ∷ []
        → Ran (let_call line src name call) w w'
    checked :
        {line : ℕ} {src : Text} {call : Call P} {verb : Verb P}
        {result : Result (Value P) (Failure P S.Error)} {outcome : Outcome}
        (detail : Detail P S.Error) {w w' : World P D S}
        → eval_call P D S call w.env w.source ≡ (w'.source, result)
        → (outcome ≡ pass) ↔ Holds P verb result w.env
        → w'.env ≡ w.env
        → w'.runner.printed ≡ w.runner.printed ++ row line src outcome detail ∷ []
        → Ran (check line src call verb) w w'

  -- Statements, run one after the other.
  pub data RanAll : List (Stmt P) → World P D S → World P D S → Type 0 where
    finished : {w : World P D S} → RanAll [] w w
    then :
        {s : Stmt P} {ss : List (Stmt P)} {w v u : World P D S}
        → Ran s w v
        → RanAll ss v u
        → RanAll (s ∷ ss) w u

  printed-last :
      (line : ℕ) (name : Text) (o : Outcome) (d : Detail P S.Error) (r : Runner P S.Error)
      → (record_row line name o d r).printed ≡ r.printed ++ row line name o d ∷ []
  unfolding record_row
  printed-last line name pass d r = refl
  printed-last line name fail d r = refl

  finish_let-Ran :
      (line : ℕ) (src name : Text) (call : Call P) (w : World P D S)
      (r : Result (Value P) (Failure P S.Error))
      → (eval_call P D S call w.env w.source).1 ≡ r
      → Ran (let_call line src name call) w (
          finish_let P D S line src name r
            (record w { source = (eval_call P D S call w.env w.source).0 }))
  unfolding finish_let record_row
  finish_let-Ran line src name call w (ok v) e =
      Ran.bound_to
        (ap
          (λ (t : Result (Value P) (Failure P S.Error)).
            ((eval_call P D S call w.env w.source).0, t))
          e)
        refl refl
  finish_let-Ran line src name call w (err f) e =
      Ran.unbound
        (ap
          (λ (t : Result (Value P) (Failure P S.Error)).
            ((eval_call P D S call w.env w.source).0, t))
          e)
        refl refl

  outcome_iff : (b : Bool) → ((if b then pass else fail) ≡ pass) ↔ (b ≡ true)
  outcome_iff true = (λ e. refl, λ e. refl)
  outcome_iff false = (λ e. cc, λ e. cc)

  execute-Ran : (s : Stmt P) (w : World P D S) → Ran s w (execute P D S s w)
  unfolding execute
  execute-Ran (sleep line d) w = Ran.slept
  execute-Ran (let_call line src name call) w = finish_let-Ran line src name call w _ refl
  execute-Ran (check line src call verb) w =
      let result = (eval_call P D S call w.env w.source).1 in
      let verdict = apply_verb-Holds P S.Error verb result w.env in
      let passed = outcome_iff (apply_verb P verb result w.env).0 in
      Ran.checked {result = result} _ refl
        (λ e. verdict.0 (passed.0 e), λ h. passed.1 (verdict.1 h)) refl
        (printed-last line src _ _ w.runner)

  execute_all-RanAll : (ss : List (Stmt P)) (w : World P D S) → RanAll ss w (execute_all P D S ss w)
  unfolding execute_all
  execute_all-RanAll [] w = RanAll.finished
  execute_all-RanAll (s ∷ ss) w =
      RanAll.then (execute-Ran s w) (execute_all-RanAll ss (execute P D S s w))

  -- What a finished run says of its script: its statements ran one after the other, the rows printed are
  -- those of the reporting statements, in order, and the summary counts them by outcome, as `u32`.
  pub record Reports (st : S.St) (ss : List (Stmt P)) (w : World P D S) (sum : Summary)
      : Type 0 where
    pub ran :
        RanAll ss
          (record {
            source = st;
            env = [];
            runner = record { passed = 0; failed = 0; printed = [] };
          })
          w
    pub rows : row_names w.runner.printed ≡ reporting ss
    pub passed_is : sum.passed ≡ u32 (passes w.runner.printed)
    pub failed_is : sum.failed ≡ u32 (fails w.runner.printed)

  execute_all-Reports :
      (st : S.St) (ss : List (Stmt P))
      → let w = execute_all P D S ss (record { source = st; env = []; runner = new }) in
        Reports st ss w (into_summary w.runner)
  unfolding new into_summary execute_all
  execute_all-Reports st ss =
      let t =
        execute_all-Tallies ss (record { source = st; env = []; runner = new })
          (record { passed_is = refl; failed_is = refl }) in
      record {
        ran = execute_all-RanAll ss _;
        rows = printed-execute_all ss _;
        passed_is = t.passed_is;
        failed_is = t.failed_is;
      }

  -- A run that the parser accepts executes every statement of the script in order, whatever fails: each
  -- sleep lets its time pass, and each other statement makes its call on the state that the one before
  -- left, binds its value, and prints one row under its own line and text. A check's row passes exactly
  -- where its verb holds of the result, and a binding's where the call has a value. The summary counts
  -- the rows that passed and those that failed, modulo 2 ^ 32.
  pub run_script-Reports :
      (st : S.St) (script : Text) {w : World P D S} {sum : Summary}
      → run_script P D S st script ≡ ok (w, sum)
      → (ss : List (Stmt P)) × (parse P script ≡ ok ss) × Reports st ss w sum
  unfolding run_script
  run_script-Reports st script h =
      let (ss, parsed, e) = >>=-eq-ok (parse P script) _ h in
      (
        ss,
        parsed,
        subst (λ (r : World P D S × Summary). Reports st ss r.0 r.1) (ok-injective e)
            (execute_all-Reports st ss),
      )

module _ {P : Platform} {E : Type 0} where
  -- Each row printed is a pass or a failure.
  pub passes-fails : (rows : List (Row P E)) → passes rows + fails rows ≡ length (row_names rows)
  passes-fails [] = omega arith
  passes-fails (r ∷ rest) = ground (arith, passes-fails rest)

module _ (P : Platform) (D : Devices P) (S : Source P D) where
  -- With fewer than 2 ^ 32 reporting statements, the total of the summary of a run is their number, and
  -- `all_passed` holds exactly when no row failed.
  pub run_script-total :
      (st : S.St) (script : Text) {w : World P D S} {sum : Summary} {ss : List (Stmt P)}
      → run_script P D S st script ≡ ok (w, sum)
      → parse P script ≡ ok ss
      → length (reporting ss) < 2 ^ 32
      → (total sum ≡ length (reporting ss))
        × ((all_passed sum ≡ true) ↔ (passes w.runner.printed ≡ length (reporting ss)))
  unfolding total all_passed
  run_script-total st script {w} {sum} {ss} h parsed small =
      let (ss', parsed', r) = run_script-Reports P D S st script h in
      let same : ss' ≡ ss = ok-injective (sym parsed' ∙ parsed) in
      let rows : length (row_names w.runner.printed) ≡ length (reporting ss) =
        ap length (r.rows ∙ ap reporting same) in
      let split = passes-fails w.runner.printed in
      (omega (arith, r.passed_is, r.failed_is), ground (arith, r.passed_is, r.failed_is))
