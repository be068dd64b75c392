-- ===== src/Examples/Records.antt =====
-- The engine on one small record, with a plain stand-in for Python's standard library.
use agent_len.Base.{◌≡◌, ◌↔◌, refl, true, false, none, some, [], ◌∷◌, ok, err, pos, All}
use agent_len.Json.{Value, int, str, obj, end, member, Object}
use agent_len.JsonPath.{ident_start, ident_part}
use agent_len.Mapping.{FieldRule, EntityMapping, target_field_types}
use agent_len.Python.{Python, value_error}
use agent_len.Engine.{apply_entity, apply_rows, apply}
use agent_len.Engine.Rejection.{any_rejected, apply_entity-rejected}
use agent_len.Engine.Content.{AllTyped, Holds, apply_entity-AllTyped, apply_entity-Holds}
use agent_len.Engine.Rows.{Rising, Stands, apply_rows-source_index}

abbrev pub plain : Python
plain = record {
  text = λ v. elim v [ str s ↦ s | _ ↦ "" ];
  strip = λ s. s;
  lower = λ s. s;
  upper = λ s. s;
  to_int = λ v. elim v [ int n ↦ ok n | _ ↦ err value_error ];
  to_float = λ v. err value_error;
  times = λ f n. f;
  times_inverse = λ f n. f;
  over = λ f n. f;
  round = λ f. ok (pos f);
  is_finite = λ f. true;
  from_iso = λ s. err value_error;
  from_timestamp = λ f. err value_error;
  strptime = λ s f. err value_error;
  dumps = λ d. "{}";
  sha256 = λ s. s;
  bad_format = λ s. false;
  regex_groups = λ s. some 0;
}

abbrev name_rule : FieldRule
name_rule = record {
  target = "tool_name";
  source = "$.name";
  required = true;
  operators = (("op", str "trim") ∷ []) ∷ [];
}

abbrev duration_rule : FieldRule
duration_rule = record { target = "duration_ms"; source = "$.ms"; required = false; operators = [] }

abbrev tools : EntityMapping
tools = record {
  target = "tool_call";
  natural_key = "tool_name" ∷ [];
  fields = name_rule ∷ duration_rule ∷ [];
  iterate = none;
  parent = none;
}

abbrev row : Value
row = obj (member "name" (str "grep") (member "ms" (int (pos 12)) end))

abbrev unnamed : Value
unnamed = obj (member "ms" (int (pos 5)) end)

abbrev content : Object
content = ("tool_name", str "grep") ∷ ("duration_ms", int (pos 12)) ∷ []

apply_entity-rejected_example :
    let (kept, issues) = apply_entity plain none tools unnamed none (some 3) in
    (kept ≡ none) ↔ (any_rejected issues ≡ true)
apply_entity-rejected_example = apply_entity-rejected plain none tools unnamed none (some 3)

kept_row : (apply_entity plain none tools row none none).0 ≡ some content
unfolding apply ident_start ident_part target_field_types
kept_row = refl

apply_entity-AllTyped_example : AllTyped "tool_call" content
apply_entity-AllTyped_example =
    apply_entity-AllTyped plain none tools row none none content kept_row

apply_entity-Holds_example : All (Holds plain none content) (name_rule ∷ duration_rule ∷ [])
apply_entity-Holds_example = apply_entity-Holds plain none tools row none none content kept_row

apply_rows-source_index_example :
    let kept = (apply_rows plain none tools none none 0 (unnamed ∷ row ∷ [])).0 in
    Rising 0 kept × All (Stands plain none tools none none 0 (unnamed ∷ row ∷ [])) kept
apply_rows-source_index_example =
    apply_rows-source_index plain none tools none none (unnamed ∷ row ∷ [])
