-- ===== src/Examples/Documents.antt =====
-- Mapping documents for the validator.
use agent_len.Base.{String, ◌≡◌, refl, true, none, some, List, [], ◌∷◌, ok, All}
use agent_len.Json.{str}
use agent_len.JsonPath.{ident_start, ident_part}
use agent_len.Mapping.{FieldRule, Mapping, target_field_types}
use agent_len.Validator.{
  ValidationError, unknown_operator, flaw, entity_part, field_part, operator_at, validate,
}
use agent_len.Validator.Accepted.{IsRead, validate-IsRead}
use agent_len.Validator.Raises.{EntityHashable, validate-EntityHashable}
use agent_len.Examples.Records.{plain}

abbrev trim_rule : String → FieldRule
trim_rule op = record {
  target = "tool_name";
  source = "$.name";
  required = true;
  operators = (("op", str op) ∷ []) ∷ [];
}

abbrev pub document : String → Mapping
document op = record {
  name = "tools";
  version = 1;
  source_format = "jsonl";
  entities =
      record {
        target = "tool_call";
        natural_key = "sequence_index" ∷ [];
        fields = trim_rule op ∷ [];
        iterate = some "$.tools";
        parent = none;
      }
      ∷ [];
}

accepted : validate plain (document "trim") ≡ ok []
unfolding validate ident_start ident_part target_field_types
accepted = refl

validate-IsRead_example : All IsRead (document "trim").entities
validate-IsRead_example = validate-IsRead plain (document "trim") accepted

abbrev complaint : List ValidationError
complaint =
    flaw unknown_operator (entity_part "tool_call" ∷ field_part "tool_name" ∷ operator_at 0 ∷ [])
    ∷ []

refused : validate plain (document "eval") ≡ ok complaint
unfolding validate ident_start ident_part target_field_types
refused = refl

validate-EntityHashable_example : All (EntityHashable plain) (document "eval").entities
validate-EntityHashable_example = validate-EntityHashable plain (document "eval") complaint refused
