-- ===== src/Engine/Coerce.antt =====
-- src/agentlen/domain/services/transformation_engine.py: `_has_target_type` and
-- `_coerce_target_type`, against the schema of src/agentlen/domain/model/target_schema.py.
use agent_len.Base.{
  String, Bool, true, false, Option, none, some, ok, err, Result, if◌then◌else◌, ℤ,
}
use agent_len.Json.{Value, int, float, str, datetime}
use agent_len.Mapping.{TargetType, text_type, int_type, datetime_type, target_type}
use agent_len.Python.{Python, Exc}

-- `isinstance(value, expected)`, where a boolean is no integer.
abbrev pub is_of_type : TargetType → Value → Bool
is_of_type text_type (str s) = true
is_of_type int_type (int n) = true
is_of_type datetime_type (datetime t z) = true
is_of_type _ v = false

-- A field that the schema does not type takes any value.
abbrev pub has_type : Option TargetType → Value → Bool
has_type none v = true
has_type (some t) v = is_of_type t v

unfoldable pub has_target_type : String → String → Value → Bool
unfolding target_type
has_target_type entity field v = has_type (target_type entity field) v

-- `round` of a finite float raises nothing; `none` is `(value, False)`.
abbrev rounded : Result Exc ℤ → Option Value
rounded (ok n) = some (int n)
rounded (err e) = none

module _ (py : Python) where
  abbrev pub narrow : Option TargetType → Value → Option Value
  narrow (some text_type) (int n) = some (str (py.text (int n)))
  narrow (some text_type) (float f) = some (str (py.text (float f)))
  narrow (some int_type) (float f) = if py.is_finite f then rounded (py.round f) else none
  narrow _ v = none

  unfoldable pub coerce_target_type : String → String → Value → Option Value
  unfolding has_target_type
  coerce_target_type entity field v =
      if has_target_type entity field v then some v else narrow (target_type entity field) v
