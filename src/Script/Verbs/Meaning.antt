-- ===== src/Script/Verbs/Meaning.antt =====
-- What the verbs of a check mean, apart from the executor's code.
use odp_platform_common.Common.{
  Bool, true, false, some, some-injective, ◌≡◌, ◌↔◌, ◌≢◌, refl, sym, subst, ◌∙◌, inl, inr,
  Option-cases, arith,
}
use odp_platform_common.Common.Result.{Result, ok, err}
use odp_platform_common.Text.{Text, codes, text_eq}
use odp_platform_common.Script.Platform.{Platform}
use odp_platform_common.Script.Syntax.{Operand, Verb}
use odp_platform_common.Script.Value.{Value, Failure, as_num}
use odp_platform_common.Script.Verbs.{
  Env, env_get, Detail, silent, unreachable, eq_f, ne_f, gt_f, ge_f, lt_f, le_f, resolve,
  compare_values, cmp, check_range, apply_verb,
}

pub data Comparison : Type 0 where
  eq ne gt ge lt le : Comparison

module _ (P : Platform) where
  -- Two numbers are compared as `f64`; two bools are equal or not, and never ordered; nothing
  -- else compares.
  abbrev pub Related : Comparison → Value P → Value P → Type 0
  Related eq (Value.num a) (Value.num b) = P.eq a b ≡ true
  Related ne (Value.num a) (Value.num b) = P.eq a b ≡ false
  Related gt (Value.num a) (Value.num b) = P.lt b a ≡ true
  Related ge (Value.num a) (Value.num b) = P.le b a ≡ true
  Related lt (Value.num a) (Value.num b) = P.lt a b ≡ true
  Related le (Value.num a) (Value.num b) = P.le a b ≡ true
  Related eq (Value.bool a) (Value.bool b) = a ≡ b
  Related ne (Value.bool a) (Value.bool b) = a ≢ b
  Related _ _ _ = ⊥

  abbrev pub Within : P.F → P.F → Bool → P.F → Type 0
  Within lo hi true a = (P.le lo a ≡ true) × (P.le a hi ≡ true)
  Within lo hi false a = (P.le lo a ≡ true) × (P.lt a hi ≡ true)

  -- The value of an operand: a literal, or what its variable is bound to.
  abbrev pub Denotes : Env P → Operand P → Value P → Type 0
  Denotes env (Operand.num n) w = Value.num n ≡ w
  Denotes env (Operand.bool b) w = Value.bool b ≡ w
  Denotes env (Operand.var name) w = env_get name env ≡ some w

  abbrev pub Compares : Comparison → Operand P → Value P → Env P → Type 0
  Compares c op v env = (w : Value P) × Denotes env op w × Related c v w

  -- The value is a number in the range.
  abbrev pub Lies : P.F → P.F → Bool → Value P → Type 0
  Lies lo hi inclusive (Value.num a) = Within lo hi inclusive a
  Lies lo hi inclusive _ = ⊥

module _ (P : Platform) {E : Type 0} where
  abbrev pub Holds : Verb P → Result (Value P) (Failure P E) → Env P → Type 0
  Holds Verb.is_ok (ok v) env = Unit
  Holds Verb.is_err (err e) env = Unit
  Holds (Verb.eq op) (ok v) env = Compares P eq op v env
  Holds (Verb.ne op) (ok v) env = Compares P ne op v env
  Holds (Verb.gt op) (ok v) env = Compares P gt op v env
  Holds (Verb.ge op) (ok v) env = Compares P ge op v env
  Holds (Verb.lt op) (ok v) env = Compares P lt op v env
  Holds (Verb.le op) (ok v) env = Compares P le op v env
  Holds (Verb.ok_eq op) (ok v) env = Compares P eq op v env
  Holds (Verb.ok_gt op) (ok v) env = Compares P gt op v env
  Holds (Verb.ok_ge op) (ok v) env = Compares P ge op v env
  Holds (Verb.ok_lt op) (ok v) env = Compares P lt op v env
  Holds (Verb.ok_le op) (ok v) env = Compares P le op v env
  Holds (Verb.in_range lo hi inclusive) (ok v) env = Lies P lo hi inclusive v
  Holds (Verb.ok_in_range lo hi inclusive) (ok v) env = Lies P lo hi inclusive v
  Holds _ _ env = ⊥

  -- A check passes with no detail, or fails with one that is not the panic's.
  abbrev pub Reported : Bool × Detail P E → Type 0
  Reported r = (r.0 ≡ true → r.1 ≡ silent) × (r.0 ≡ false → (r.1 ≢ silent) × (r.1 ≢ unreachable))

module _ (P : Platform) where
  abbrev function_of : Comparison → P.F → P.F → Bool
  function_of eq = eq_f P
  function_of ne = ne_f P
  function_of gt = gt_f P
  function_of ge = ge_f P
  function_of lt = lt_f P
  function_of le = le_f P

abbrev symbol_of : Comparison → Text
symbol_of eq = codes "=="
symbol_of ne = codes "!="
symbol_of gt = codes ">"
symbol_of ge = codes ">="
symbol_of lt = codes "<"
symbol_of le = codes "<="

module _ (P : Platform) (E : Type 0) where
  compare_values-Related :
      (c : Comparison) (v w : Value P)
      → ((compare_values P {E = E} (function_of P c) (symbol_of c) v w).0 ≡ true) ↔ Related P c v w
  unfolding compare_values text_eq
  compare_values-Related eq v w = (ground arith, ground arith)
  compare_values-Related _ v w = (ground arith, ground arith)

  cmp-Compares :
      (c : Comparison) (op : Operand P) (v : Value P) (env : Env P)
      → ((cmp P {E = E} v (resolve P env op) (function_of P c) (symbol_of c)).0 ≡ true)
        ↔ Compares P c op v env
  unfolding cmp resolve
  cmp-Compares c (Operand.num n) v env =
      let m = compare_values-Related c v (Value.num n) in
      (λ h. (Value.num n, refl, m.0 h), λ h. m.1 (subst (Related P c v) (sym h.1) h.2))
  cmp-Compares c (Operand.bool b) v env =
      let m = compare_values-Related c v (Value.bool b) in
      (λ h. (Value.bool b, refl, m.0 h), λ h. m.1 (subst (Related P c v) (sym h.1) h.2))
  cmp-Compares c (Operand.var name) v env = elim (Option-cases (env_get name env)) [
    | inl unbound ↦ (rw unbound (λ h. cc), λ h. cc (sym unbound ∙ h.1))
    | inr (w, bound) ↦
        let m = compare_values-Related c v w in
        rw bound (
          λ h. (w, refl, m.0 h),
          λ h. m.1 (subst (Related P c v) (sym (some-injective _ _ h.1)) h.2),
        )
  ]

  check_range-Lies :
      (lo hi : P.F) (inclusive : Bool) (v : Value P)
      → ((check_range P {E = E} lo hi inclusive (as_num v)).0 ≡ true) ↔ Lies P lo hi inclusive v
  unfolding check_range as_num
  check_range-Lies lo hi true v = (ground arith, ground arith)
  check_range-Lies lo hi false v = (ground arith, ground arith)

  -- A check passes exactly when its verb holds of the result of its call.
  pub apply_verb-Holds :
      (verb : Verb P) (r : Result (Value P) (Failure P E)) (env : Env P)
      → ((apply_verb P verb r env).0 ≡ true) ↔ Holds P verb r env
  unfolding apply_verb
  apply_verb-Holds Verb.is_ok (ok v) env = (λ h. tt, λ h. refl)
  apply_verb-Holds Verb.is_ok (err e) env = (λ h. cc, λ h. elim h [ ])
  apply_verb-Holds Verb.is_err (ok v) env = (λ h. cc, λ h. elim h [ ])
  apply_verb-Holds Verb.is_err (err e) env = (λ h. tt, λ h. refl)
  apply_verb-Holds (Verb.eq op) (ok v) env = cmp-Compares eq op v env
  apply_verb-Holds (Verb.ne op) (ok v) env = cmp-Compares ne op v env
  apply_verb-Holds (Verb.gt op) (ok v) env = cmp-Compares gt op v env
  apply_verb-Holds (Verb.ge op) (ok v) env = cmp-Compares ge op v env
  apply_verb-Holds (Verb.lt op) (ok v) env = cmp-Compares lt op v env
  apply_verb-Holds (Verb.le op) (ok v) env = cmp-Compares le op v env
  apply_verb-Holds (Verb.ok_eq op) (ok v) env = cmp-Compares eq op v env
  apply_verb-Holds (Verb.ok_gt op) (ok v) env = cmp-Compares gt op v env
  apply_verb-Holds (Verb.ok_ge op) (ok v) env = cmp-Compares ge op v env
  apply_verb-Holds (Verb.ok_lt op) (ok v) env = cmp-Compares lt op v env
  apply_verb-Holds (Verb.ok_le op) (ok v) env = cmp-Compares le op v env
  apply_verb-Holds (Verb.in_range lo hi i) (ok v) env = check_range-Lies lo hi i v
  apply_verb-Holds (Verb.ok_in_range lo hi i) (ok v) env = check_range-Lies lo hi i v
  apply_verb-Holds _ (err e) env = (λ h. cc, λ h. elim h [ ])

  cmp-Reported :
      (v : Value P) (r : Result (Value P) (Failure P E)) (f : P.F → P.F → Bool) (sym : Text)
      → Reported P (cmp P v r f sym)
  unfolding cmp compare_values
  cmp-Reported v r f sym = (ground arith, λ h. (ground arith, ground arith))

  check_range-Reported :
      (lo hi : P.F) (inclusive : Bool) (r : Result P.F (Failure P E))
      → Reported P (check_range P lo hi inclusive r)
  unfolding check_range
  check_range-Reported lo hi inclusive r = (ground arith, λ h. (ground arith, ground arith))

  -- A check that passes has no detail; one that fails has a detail, and never the panic of
  -- `unreachable!()`.
  pub apply_verb-Reported :
      (verb : Verb P) (r : Result (Value P) (Failure P E)) (env : Env P)
      → Reported P (apply_verb P verb r env)
  unfolding apply_verb
  apply_verb-Reported Verb.is_ok r env = (ground arith, λ h. (ground arith, ground arith))
  apply_verb-Reported Verb.is_err r env = (ground arith, λ h. (ground arith, ground arith))
  apply_verb-Reported (Verb.in_range lo hi i) (ok v) env = check_range-Reported lo hi i _
  apply_verb-Reported (Verb.ok_in_range lo hi i) (ok v) env = check_range-Reported lo hi i _
  apply_verb-Reported (Verb.eq op) (ok v) env = cmp-Reported v _ _ _
  apply_verb-Reported _ (ok v) env = cmp-Reported v _ _ _
  apply_verb-Reported _ (err e) env = (ground arith, λ h. (ground arith, ground arith))
