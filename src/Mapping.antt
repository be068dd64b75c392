-- ===== src/Mapping.antt =====
-- src/agentlen/domain/model: the mapping document (mapping.py), the target schema
-- (target_schema.py) and the issues of an import (import_run.py). An issue's message is text for
-- people and is left out; its code, severity and place are kept.
use agent_len.Base.{ℕ, String, ◌<>◌, Bool, true, false, Option, none, some, List, [], ◌∷◌}
use agent_len.Base.{string_eq}
use agent_len.Base.Dict.{Dict, lookup}
use agent_len.Json.{Object}

pub record FieldRule : Type 0 where
  pub target : String
  pub source : String
  pub required : Bool
  pub operators : List Object

pub record EntityMapping : Type 0 where
  pub target : String
  pub natural_key : List String
  pub fields : List FieldRule
  pub iterate : Option String
  pub parent : Option Object

pub record Mapping : Type 0 where
  pub name : String
  pub version : ℕ
  pub source_format : String
  pub entities : List EntityMapping

-- `VALID_SEVERITIES`
pub data Severity : Type 0 where
  rejected duplicate warning : Severity

pub record ImportIssue : Type 0 where
  pub severity : Severity
  pub code : String
  pub field_path : Option String
  pub line_number : Option ℕ

abbrev pub is_rejected : Severity → Bool
is_rejected rejected = true
is_rejected _ = false

-- The types of `TARGET_FIELD_TYPES`: `str`, `int` and `datetime`.
pub data TargetType : Type 0 where
  text_type int_type datetime_type : TargetType

abbrev pub session_fields : Dict String TargetType
session_fields =
    ("external_id", text_type)
    ∷ ("agent_name", text_type)
    ∷ ("started_at", datetime_type)
    ∷ ("ended_at", datetime_type)
    ∷ ("duration_ms", int_type)
    ∷ ("outcome", text_type)
    ∷ []

abbrev pub model_call_fields : Dict String TargetType
model_call_fields =
    ("sequence_index", int_type)
    ∷ ("model_name", text_type)
    ∷ ("provider_name", text_type)
    ∷ ("input_tokens", int_type)
    ∷ ("output_tokens", int_type)
    ∷ ("cache_read_tokens", int_type)
    ∷ ("cache_creation_tokens", int_type)
    ∷ ("duration_ms", int_type)
    ∷ ("started_at", datetime_type)
    ∷ ("stop_reason", text_type)
    ∷ ("status", text_type)
    ∷ ("error_code", text_type)
    ∷ []

abbrev pub tool_call_fields : Dict String TargetType
tool_call_fields =
    ("sequence_index", int_type)
    ∷ ("tool_name", text_type)
    ∷ ("status", text_type)
    ∷ ("duration_ms", int_type)
    ∷ ("started_at", datetime_type)
    ∷ ("error_message", text_type)
    ∷ []

unfoldable pub target_field_types : Dict String (Dict String TargetType)
target_field_types =
    ("session", session_fields)
    ∷ ("model_call", model_call_fields)
    ∷ ("tool_call", tool_call_fields)
    ∷ []

-- `TARGET_FIELD_TYPES.get(entity, {}).get(field)`
unfoldable pub target_type : String → String → Option TargetType
target_type entity field = elim (lookup entity target_field_types) [
  | none ↦ none
  | some fields ↦ lookup field fields
]

-- `f"entities[target={entity}].fields[target={field}]"`
abbrev pub field_place : String → String → String
field_place entity field = "entities[target=" <> entity <> "].fields[target=" <> field <> "]"

-- Whether an optional text is truthy: present and not empty.
abbrev pub truthy : Option String → Option String
truthy none = none
truthy (some String.[]) = none
truthy (some (String.◌∷◌ c s)) = some (String.◌∷◌ c s)
