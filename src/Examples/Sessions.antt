-- ===== src/Examples/Sessions.antt =====
-- A record with a session and two rows of tool calls, the second without a name.
use agent_len.Base.{ℕ, String, ◌≡◌, refl, false, none, some, List, [], ◌∷◌, ok, pos}
use agent_len.Json.{Value, null, str, arr, obj, nil, item, end, member, Object}
use agent_len.JsonPath.{ident_start, ident_part}
use agent_len.Mapping.{FieldRule, EntityMapping, Mapping, ImportIssue, rejected, target_field_types}
use agent_len.Engine.{Entry}
use agent_len.Normalizer.{
  NormalizationResult, Calls, normalize, build_model_calls, build_tool_calls,
}
use agent_len.Normalizer.Entities.{Session, ModelCall, ToolCall, model, provider, tool}
use agent_len.Normalizer.Tools.{Accounted, build_tool_calls-Accounted}
use agent_len.Normalizer.Models.{Accounted as ModelsAccounted, build_model_calls-Accounted}
use agent_len.Normalizer.Linked.{IsLinked, normalize-IsLinked}
use agent_len.Examples.Records.{plain}

abbrev rule : String → String → FieldRule
rule target source = record { target = target; source = source; required = false; operators = [] }

abbrev sessions : EntityMapping
sessions = record {
  target = "session";
  natural_key = "external_id" ∷ [];
  fields = rule "external_id" "$.id" ∷ [];
  iterate = none;
  parent = none;
}

abbrev tools : EntityMapping
tools = record {
  target = "tool_call";
  natural_key = "sequence_index" ∷ [];
  fields = rule "tool_name" "$.name" ∷ [];
  iterate = some "$.tools";
  parent = none;
}

abbrev pub mapping : Mapping
mapping = record {
  name = "sessions";
  version = 1;
  source_format = "jsonl";
  entities = sessions ∷ tools ∷ [];
}

abbrev raw : Value
raw = obj (
    member "id" (str "s1")
      (member "tools" (arr (item (obj (member "name" (str "grep") end)) (item (obj end) nil))) end))

abbrev pub session : Session
session = record {
  id = 10;
  data_source_id = 7;
  external_id = "s1";
  agent_name = none;
  started_at = null;
  ended_at = null;
  duration_ms = null;
  outcome = null;
}

abbrev pub grep : ToolCall
grep = record {
  id = 11;
  session_id = 10;
  sequence_index = pos 0;
  tool_name = "grep";
  status = str "unknown";
  duration_ms = null;
  error_message = null;
  started_at = null;
}

abbrev unbuilt : ImportIssue
unbuilt = record {
  severity = rejected;
  code = "ENTITY_CONSTRUCTION_FAILED";
  field_path = none;
  line_number = some 3;
}

abbrev result : NormalizationResult
result = record {
  sessions = session ∷ [];
  model_calls = [];
  tool_calls = grep ∷ [];
  issues = unbuilt ∷ [];
  reference_requests = record { kind = tool; name = "grep"; context = [] } ∷ [];
}

normalized : normalize plain mapping raw 7 (some 3) 10 ≡ ok (result, 12)
unfolding normalize ident_start ident_part target_field_types
normalized = refl

normalize-IsLinked_example : IsLinked plain result
normalize-IsLinked_example = normalize-IsLinked plain mapping raw 7 (some 3) 10 normalized

abbrev entry : String → Object → ℕ → Entry
entry target content index = record { entity = target; content = content; source_index = index }

abbrev tool_rows : List Entry
tool_rows = entry "tool_call" (("tool_name", str "grep") ∷ []) 0 ∷ entry "tool_call" [] 1 ∷ []

abbrev tool_calls : Calls ToolCall
tool_calls = record {
  calls = grep ∷ [];
  issues = unbuilt ∷ [];
  references = record { kind = tool; name = "grep"; context = [] } ∷ [];
  next_id = 12;
}

tools_built : build_tool_calls plain tools tool_rows (some session) 11 (some 3) ≡ ok tool_calls
unfolding build_tool_calls normalize
tools_built = refl

build_tool_calls-Accounted_example : Accounted session 2 tool_calls
build_tool_calls-Accounted_example =
    build_tool_calls-Accounted plain tools tool_rows session 11 (some 3) tools_built

abbrev models : EntityMapping
models = record tools { target = "model_call"; fields = rule "model_name" "$.model" ∷ [] }

abbrev model_rows : List Entry
model_rows =
    entry "model_call" (("model_name", str "m") ∷ ("provider_name", str "p") ∷ []) 0
    ∷ entry "model_call" (("status", str "lost") ∷ []) 1
    ∷ []

abbrev answer : ModelCall
answer = record {
  id = 11;
  session_id = 10;
  sequence_index = pos 0;
  token_usage = record {
    input_tokens = null;
    output_tokens = null;
    cache_read_tokens = null;
    cache_creation_tokens = null;
  };
  status = str "unknown";
  model_name = some "m";
  provider_name = some "p";
  started_at = null;
  duration_ms = null;
  stop_reason = null;
  error_code = null;
}

abbrev model_calls : Calls ModelCall
model_calls = record {
  calls = answer ∷ [];
  issues = unbuilt ∷ [];
  references =
      record { kind = provider; name = "p"; context = [] }
      ∷ record { kind = model; name = "m"; context = ("provider_name", "p") ∷ [] }
      ∷ [];
  next_id = 12;
}

models_built : build_model_calls plain models model_rows (some session) 11 (some 3) ≡ ok model_calls
unfolding build_model_calls normalize
models_built = refl

build_model_calls-Accounted_example : ModelsAccounted plain session 2 model_calls
build_model_calls-Accounted_example =
    build_model_calls-Accounted plain models model_rows session 11 (some 3) models_built
