-- ===== src/Normalizer/Entities.antt =====
-- The entities of src/agentlen/domain/model and their constructors, with the checks of their
-- `__post_init__`. A column that is passed on untouched stays a value, `null` where it is absent.
-- `ToolCall.model_call_id` is left out: no call sets it.
use agent_len.Base.{ℕ, String, Option, none, some, List, [], ◌∷◌, ok, err}
use agent_len.Base.{◌>>=◌, ◌>>◌, ℤ, string_eq, contains, if◌then◌else◌}
use agent_len.Base.Dict.{lookup}
use agent_len.Json.{Value, str, arr, obj, Object, is_null, or_null}
use agent_len.Python.{Python, value_error, key_error, type_error}
use agent_len.Engine.Operators.{Run, or_else}

pub record Session : Type 0 where
  pub id : ℕ
  pub data_source_id : ℕ
  pub external_id : String
  pub agent_name : Option String
  pub started_at : Value
  pub ended_at : Value
  pub duration_ms : Value
  pub outcome : Value

pub record TokenUsage : Type 0 where
  pub input_tokens : Value
  pub output_tokens : Value
  pub cache_read_tokens : Value
  pub cache_creation_tokens : Value

pub record ModelCall : Type 0 where
  pub id : ℕ
  pub session_id : ℕ
  pub sequence_index : ℤ
  pub token_usage : TokenUsage
  pub status : Value
  pub model_name : Option String
  pub provider_name : Option String
  pub started_at : Value
  pub duration_ms : Value
  pub stop_reason : Value
  pub error_code : Value

pub record ToolCall : Type 0 where
  pub id : ℕ
  pub session_id : ℕ
  pub sequence_index : ℤ
  pub tool_name : String
  pub status : Value
  pub duration_ms : Value
  pub error_message : Value
  pub started_at : Value

-- `VALID_KINDS`
pub data ReferenceKind : Type 0 where
  agent provider model tool repository : ReferenceKind

pub record ReferenceRequest : Type 0 where
  pub kind : ReferenceKind
  pub name : String
  pub context : List (String × String)

abbrev pub valid_outcomes : List String
valid_outcomes = "completed" ∷ "error" ∷ "aborted" ∷ "unknown" ∷ []

abbrev pub valid_statuses : List String
valid_statuses = "ok" ∷ "error" ∷ "unknown" ∷ []

-- `if v not in valid: raise ValueError`; what cannot be hashed is a TypeError.
abbrev pub one_of : List String → Value → Run (Unit {0})
one_of valid (str s) = if contains s valid then ok tt else err value_error
one_of valid (arr vs) = err type_error
one_of valid (obj ms) = err type_error
one_of valid _ = err value_error

abbrev pub check_outcome : Value → Run (Unit {0})
check_outcome v = if is_null v then ok tt else one_of valid_outcomes v

abbrev get : String → Object → Value
get name content = or_null (lookup name content)

abbrev pub required : String → Object → Run Value
required name content = elim (lookup name content) [ none ↦ err key_error | some v ↦ ok v ]

module _ (py : Python) where
  -- `Session(...)` in `_build_session`
  unfoldable pub make_session : ℕ → ℕ → Option String → Object → Run Session
  make_session id source name content = do
    external ← required "external_id" content
    check_outcome (get "outcome" content)
    ok (record {
      id = id;
      data_source_id = source;
      external_id = py.text external;
      agent_name = name;
      started_at = get "started_at" content;
      ended_at = get "ended_at" content;
      duration_ms = get "duration_ms" content;
      outcome = get "outcome" content;
    })

  abbrev usage : Object → TokenUsage
  usage content = record {
    input_tokens = get "input_tokens" content;
    output_tokens = get "output_tokens" content;
    cache_read_tokens = get "cache_read_tokens" content;
    cache_creation_tokens = get "cache_creation_tokens" content;
  }

  abbrev status_of : Object → Value
  status_of content = or_else (lookup "status" content) (str "unknown")

  -- `ModelCall(...)` in `_build_model_calls`
  unfoldable pub make_model_call : ℕ → ℕ → Option String → Option String → Object → Run ModelCall
  make_model_call id session name provider_name content = do
    index ← py.to_int (get "sequence_index" content)
    one_of valid_statuses (status_of content)
    ok (record {
      id = id;
      session_id = session;
      sequence_index = index;
      token_usage = usage content;
      status = status_of content;
      model_name = name;
      provider_name = provider_name;
      started_at = get "started_at" content;
      duration_ms = get "duration_ms" content;
      stop_reason = get "stop_reason" content;
      error_code = get "error_code" content;
    })

  -- `ToolCall(...)` in `_build_tool_calls`
  unfoldable pub make_tool_call : ℕ → ℕ → String → Object → Run ToolCall
  make_tool_call id session name content = do
    index ← py.to_int (get "sequence_index" content)
    one_of valid_statuses (status_of content)
    ok (record {
      id = id;
      session_id = session;
      sequence_index = index;
      tool_name = name;
      status = status_of content;
      duration_ms = get "duration_ms" content;
      error_message = get "error_message" content;
      started_at = get "started_at" content;
    })
