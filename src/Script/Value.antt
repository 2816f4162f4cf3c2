-- ===== src/Script/Value.antt =====
-- Runtime values (ec/test-script/src/value.rs), and the failures of the executor: one constructor
-- for each text that the source formats, with what the text shows.
use odp_platform_common.Common.{Bool, List, [], ◌∷◌, Option, none, some, if◌then◌else◌}
use odp_platform_common.Common.Result.{Result, ok, err, ◌>>=◌}
use odp_platform_common.Text.{Text, codes, text_eq}
use odp_platform_common.Script.Platform.{Platform}

mutual
  pub data Value (P : Platform) : Type 0 where
    unit : Value P
    num : P.F → Value P
    bool : Bool → Value P
    struct : Fields P → Value P

  pub data Fields (P : Platform) : Type 0 where
    nil : Fields P
    field : Text → Value P → Fields P → Fields P

-- `E` is the error type of the data source.
pub data Failure (P : Platform) (E : Type 0) : Type 0 where
  no_field : Text → List Text → Failure P E
  cannot_project : Text → Text → Failure P E
  expected_number expected_bool : Text → Failure P E
  source_error : E → Failure P E
  setter_got_bool : Failure P E
  undefined_variable : Text → Failure P E
  out_of_u32_range : P.F → Failure P E

module _ {P : Platform} where
  unfoldable pub kind_name : Value P → Text
  kind_name unit = codes "unit"
  kind_name (num n) = codes "number"
  kind_name (bool b) = codes "bool"
  kind_name (struct fs) = codes "struct"

  -- `find_map` over the fields: the first one of that name.
  unfoldable pub find_field : Text → Fields P → Option (Value P)
  find_field seg nil = none
  find_field seg (field k v fs) =
      let rest = find_field seg fs in if text_eq k seg then some v else rest

  unfoldable pub field_names : Fields P → List Text
  field_names nil = []
  field_names (field k v fs) = k ∷ field_names fs

module _ {P : Platform} {E : Type 0} where
  -- One segment of a path.
  unfoldable pub project_one : Value P → Text → Result (Value P) (Failure P E)
  unfolding kind_name find_field field_names
  project_one (struct fs) seg = elim (find_field seg fs) [
    | some v ↦ ok v
    | none ↦ err (no_field seg (field_names fs))
  ]
  project_one unit seg = err (cannot_project seg (codes "unit"))
  project_one (num n) seg = err (cannot_project seg (codes "number"))
  project_one (bool b) seg = err (cannot_project seg (codes "bool"))

  unfoldable pub project : Value P → List Text → Result (Value P) (Failure P E)
  unfolding project_one
  project cur [] = ok cur
  project cur (seg ∷ path) = do v ← project_one cur seg; project v path

  unfoldable pub as_num : Value P → Result P.F (Failure P E)
  unfolding kind_name
  as_num (num n) = ok n
  as_num unit = err (expected_number (codes "unit"))
  as_num (bool b) = err (expected_number (codes "bool"))
  as_num (struct fs) = err (expected_number (codes "struct"))

  unfoldable pub as_bool : Value P → Result Bool (Failure P E)
  as_bool (bool b) = ok b
  as_bool unit = err (expected_bool (codes "unit"))
  as_bool (num n) = err (expected_bool (codes "number"))
  as_bool (struct fs) = err (expected_bool (codes "struct"))
