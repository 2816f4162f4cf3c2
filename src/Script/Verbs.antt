-- ===== src/Script/Verbs.antt =====
-- The verbs of a check: ec/test-script/src/verbs.rs, and `apply_verb` with its helpers from
-- ec/test-script/src/exec.rs.
pub mod Meaning
use odp_platform_common.Common.{
  Bool, true, false, not, ◌&&◌, ◌||◌, List, [], ◌∷◌, Option, none, some, if◌then◌else◌,
}
use odp_platform_common.Common.Result.{Result, ok, err, ok_or}
use odp_platform_common.Text.{Text, codes, is, text_eq}
use odp_platform_common.Script.Platform.{Platform}
use odp_platform_common.Script.Syntax.{Operand, Verb}
use odp_platform_common.Script.Value.{Value, Failure, undefined_variable, as_num}

-- `HashMap<String, Value>`.
abbrev pub Env : Platform → Type 0
Env P = List (Text × Value P)

module _ {P : Platform} where
  unfoldable pub env_get : Text → Env P → Option (Value P)
  unfolding text_eq
  env_get k [] = none
  env_get k ((j, v) ∷ env) = let rest = env_get k env in if text_eq j k then some v else rest

  unfoldable pub env_insert : Text → Value P → Env P → Env P
  unfolding text_eq
  env_insert k v [] = (k, v) ∷ []
  env_insert k v ((j, w) ∷ env) =
      let rest = env_insert k v env in if text_eq j k then (k, v) ∷ env else (j, w) ∷ rest

-- The report of a row, one constructor for each text that the source formats.
pub data Detail (P : Platform) (E : Type 0) : Type 0 where
  silent : Detail P E
  -- The panic of `unreachable!()`.
  unreachable : Detail P E
  failed : Failure P E → Detail P E
  got_err got_err_not_ok call_failed : Failure P E → Detail P E
  got_ok : Value P → Detail P E
  bools_differ : Bool → Text → Bool → Detail P E
  numbers_differ : P.F → Text → P.F → Detail P E
  not_in_range : P.F → P.F → P.F → Bool → Detail P E
  bound : Text → Value P → Detail P E
  not_bound : Text → Failure P E → Detail P E

abbrev pub bool_eq : Bool → Bool → Bool
bool_eq true y = y
bool_eq false y = not y

module _ (P : Platform) where
  open P use {F, eq, lt, le}

  -- `verbs::{eq, ne, gt, ge, lt, le}` at `f64`.
  abbrev pub eq_f : F → F → Bool
  eq_f a b = eq a b

  abbrev pub ne_f : F → F → Bool
  ne_f a b = not (eq a b)

  abbrev pub gt_f : F → F → Bool
  gt_f a b = lt b a

  abbrev pub ge_f : F → F → Bool
  ge_f a b = le b a

  abbrev pub lt_f : F → F → Bool
  lt_f a b = lt a b

  abbrev pub le_f : F → F → Bool
  le_f a b = le a b

  -- `verbs::in_range` for `lo..=hi` and `lo..hi`.
  unfoldable pub in_range_f : F → F → Bool → F → Bool
  in_range_f lo hi inclusive a = if inclusive then le lo a && le a hi else le lo a && lt a hi

  -- `matches!(verb, Verb::OkEq(_) | …)`.
  unfoldable pub is_ok_verb : Verb P → Bool
  is_ok_verb (Verb.ok_eq op) = true
  is_ok_verb (Verb.ok_gt op) = true
  is_ok_verb (Verb.ok_ge op) = true
  is_ok_verb (Verb.ok_lt op) = true
  is_ok_verb (Verb.ok_le op) = true
  is_ok_verb (Verb.ok_in_range lo hi inclusive) = true
  is_ok_verb _ = false

  module _ {E : Type 0} where
    unfoldable pub resolve : Env P → Operand P → Result (Value P) (Failure P E)
    unfolding env_get
    resolve env (Operand.num n) = ok (Value.num n)
    resolve env (Operand.bool b) = ok (Value.bool b)
    resolve env (Operand.var name) = ok_or (env_get name env) (undefined_variable name)

    abbrev pub verdict : Bool → Detail P E → Bool × Detail P E
    verdict true d = (true, silent)
    verdict false d = (false, d)

    -- `match (value.as_num(), rhs.as_num())`.
    unfoldable pub compare_numbers :
        (F → F → Bool) → Text → Result F (Failure P E) → Result F (Failure P E) → Bool × Detail P E
    compare_numbers f sym (ok a) (ok b) = verdict (f a b) (numbers_differ a sym b)
    compare_numbers f sym (err e) _ = (false, failed e)
    compare_numbers f sym (ok a) (err e) = (false, failed e)

    -- `match (value, &rhs)`: two bools are compared by `==` and `!=` only.
    unfoldable pub compare_values : (F → F → Bool) → Text → Value P → Value P → Bool × Detail P E
    unfolding compare_numbers as_num
    compare_values f sym (Value.bool a) (Value.bool b) =
        if is sym "==" || is sym "!="
        then verdict (if is sym "==" then bool_eq a b else not (bool_eq a b)) (bools_differ a sym b)
        else compare_numbers f sym (as_num (Value.bool a)) (as_num (Value.bool b))
    compare_values f sym value rhs = compare_numbers f sym (as_num value) (as_num rhs)

    -- The closure `cmp`.
    unfoldable pub cmp :
        Value P → Result (Value P) (Failure P E) → (F → F → Bool) → Text → Bool × Detail P E
    unfolding compare_values
    cmp value (err e) f sym = (false, failed e)
    cmp value (ok rhs) f sym = compare_values f sym value rhs

    unfoldable pub check_range : F → F → Bool → Result F (Failure P E) → Bool × Detail P E
    unfolding in_range_f
    check_range lo hi inclusive (err e) = (false, failed e)
    check_range lo hi inclusive (ok a) =
        verdict (in_range_f lo hi inclusive a) (not_in_range a lo hi inclusive)

    unfoldable pub apply_value_verb : Verb P → Value P → Env P → Bool × Detail P E
    unfolding cmp check_range resolve as_num
    apply_value_verb (Verb.eq op) value env = cmp value (resolve env op) eq_f (codes "==")
    apply_value_verb (Verb.ne op) value env = cmp value (resolve env op) ne_f (codes "!=")
    apply_value_verb (Verb.gt op) value env = cmp value (resolve env op) gt_f (codes ">")
    apply_value_verb (Verb.ge op) value env = cmp value (resolve env op) ge_f (codes ">=")
    apply_value_verb (Verb.lt op) value env = cmp value (resolve env op) lt_f (codes "<")
    apply_value_verb (Verb.le op) value env = cmp value (resolve env op) le_f (codes "<=")
    apply_value_verb (Verb.in_range lo hi inclusive) value env =
        check_range lo hi inclusive (as_num value)
    apply_value_verb (Verb.ok_eq op) value env = cmp value (resolve env op) eq_f (codes "==")
    apply_value_verb (Verb.ok_gt op) value env = cmp value (resolve env op) gt_f (codes ">")
    apply_value_verb (Verb.ok_ge op) value env = cmp value (resolve env op) ge_f (codes ">=")
    apply_value_verb (Verb.ok_lt op) value env = cmp value (resolve env op) lt_f (codes "<")
    apply_value_verb (Verb.ok_le op) value env = cmp value (resolve env op) le_f (codes "<=")
    apply_value_verb (Verb.ok_in_range lo hi inclusive) value env =
        check_range lo hi inclusive (as_num value)
    apply_value_verb Verb.is_ok value env = (false, unreachable)
    apply_value_verb Verb.is_err value env = (false, unreachable)

    unfoldable pub apply_verb : Verb P → Result (Value P) (Failure P E) → Env P → Bool × Detail P E
    unfolding apply_value_verb is_ok_verb
    apply_verb Verb.is_ok (ok v) env = (true, silent)
    apply_verb Verb.is_ok (err e) env = (false, got_err e)
    apply_verb Verb.is_err (ok v) env = (false, got_ok v)
    apply_verb Verb.is_err (err e) env = (true, silent)
    apply_verb verb (err e) env =
        (false, if is_ok_verb verb then got_err_not_ok e else call_failed e)
    apply_verb verb (ok v) env = apply_value_verb verb v env
