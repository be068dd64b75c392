-- ===== src/Normalizer.antt =====
-- src/agentlen/domain/services/record_normalizer.py, and the entities of src/agentlen/domain/model
-- (session.py, model_call.py, tool_call.py, reference.py). `uuid4()` draws the next number of a supply.
pub mod Entities
pub mod Tools
pub mod Models
pub mod Linked
pub mod Numbered
use agent_len.Base.{
  ℕ, suc, ◌+◌, String, Bool, true, false, ◌&&◌, Option, none, some, List, [], ◌∷◌, ◌++◌,
}
use agent_len.Base.{Result, ok, err, ◌>>=◌, ℤ, pos, length, ◌==◌, string_eq, if◌then◌else◌}
use agent_len.Base.Dict.{lookup, insert}
use agent_len.Json.{Value, null, bool, int, float, str, Object, is_null, or_null}
use agent_len.Mapping.{EntityMapping, Mapping, ImportIssue, rejected, warning, field_place, truthy}
use agent_len.Python.{Python, Exc, value_error, key_error}
use agent_len.Engine.{Entry, apply}
use agent_len.Engine.Operators.{Run, or_else}
use Entities.{
  Session, TokenUsage, ModelCall, ToolCall, ReferenceRequest, agent, provider, model, tool,
}
use Entities.{make_session, make_model_call, make_tool_call}

pub record NormalizationResult : Type 0 where
  pub sessions : List Session
  pub model_calls : List ModelCall
  pub tool_calls : List ToolCall
  pub issues : List ImportIssue
  pub reference_requests : List ReferenceRequest

abbrev pub problem : String → Option String → Option ℕ → ImportIssue
problem code place line = record {
  severity = rejected;
  code = code;
  field_path = place;
  line_number = line;
}

abbrev get : String → Object → Value
get name content = or_null (lookup name content)

-- `{e.target: e for e in mapping.entities}.get(target)`: the last of several wins.
unfoldable pub by_target : String → List EntityMapping → Option EntityMapping
by_target target [] = none
by_target target (e ∷ entities) = elim (by_target target entities) [
  | some later ↦ some later
  | none ↦ if e.target == target then some e else none
]

unfoldable pub of_target : String → List Entry → List Entry
of_target target [] = []
of_target target (e ∷ es) =
    let rest = of_target target es in if e.entity == target then e ∷ rest else rest

abbrev any_missing : List String → Object → Bool
any_missing [] content = false
any_missing (k ∷ ks) content = if is_null (get k content) then true else any_missing ks content

-- `_check_natural_key`
unfoldable pub check_natural_key : EntityMapping → Object → Option ℕ → Option ImportIssue
check_natural_key entity content line =
    if any_missing entity.natural_key content
    then some (problem "MAPPING_MISSING_NATURAL_KEY" none line)
    else none

abbrev construction_issue : Option ℕ → ImportIssue
construction_issue line = problem "ENTITY_CONSTRUCTION_FAILED" none line

-- `except (KeyError, ValueError)`: what a constructor raises becomes an issue, or passes on.
abbrev constructed : {A : Type 0} → Run A → Run (Option A)
constructed (ok a) = ok (some a)
constructed (err value_error) = ok none
constructed (err key_error) = ok none
constructed (err e) = err e

abbrev parent_missing : Option ℕ → List Entry → List ImportIssue
parent_missing line [] = []
parent_missing line (e ∷ es) = problem "PARENT_SESSION_MISSING" none line ∷ []

abbrev indexed : Entry → Object
indexed e =
    insert "sequence_index" (or_else (lookup "sequence_index" e.content) (int (pos e.source_index)))
      e.content

-- The calls of one record so far, and the supply of ids.
pub record Calls (A : Type 0) : Type 0 where
  pub calls : List A
  pub issues : List ImportIssue
  pub references : List ReferenceRequest
  pub next_id : ℕ

abbrev pub no_calls : {A : Type 0} → List ImportIssue → ℕ → Calls A
no_calls issues next = record { calls = []; issues = issues; references = []; next_id = next }

module _ (py : Python) where
  abbrev nonblank : String → Option String
  nonblank text = if py.strip text == "" then none else some text

  unfoldable pub reference_name : Value → Run (Option String)
  reference_name null = ok none
  reference_name (str s) = ok (nonblank (py.text (str s)))
  reference_name (int n) = ok (nonblank (py.text (int n)))
  reference_name (float f) = ok (nonblank (py.text (float f)))
  reference_name v = err value_error

  abbrev name_issue : String → String → Option ℕ → ImportIssue
  name_issue target field line =
      problem "REFERENCE_NAME_INVALID" (some (field_place target field)) line

  abbrev named :
      String
      → String
      → Option ℕ
      → Bool
      → Value
      → Run (Option String)
      → Option String × Option ImportIssue
  named target field line blank_is_error raw (err e) = (none, some (name_issue target field line))
  named target field line blank_is_error raw (ok (some name)) = (some name, none)
  named target field line blank_is_error raw (ok none) =
      if is_null raw
      then (none, none)
      else if blank_is_error
      then (none, some (name_issue target field line))
      else (none, none)

  -- `_name`
  unfoldable pub name_of :
      String → String → Object → Option ℕ → Bool → Option String × Option ImportIssue
  unfolding reference_name
  name_of target field content line blank_is_error =
      let raw = get field content in named target field line blank_is_error raw (reference_name raw)

  abbrev several : List Entry → Option ℕ → List ImportIssue
  several (a ∷ b ∷ more) line =
      record {
        severity = warning;
        code = "MULTIPLE_SESSIONS_IGNORED";
        field_path = none;
        line_number = line;
      }
      ∷ []
  several _ line = []

  abbrev session_made :
      List ImportIssue → Option ℕ → Run (Option Session) → Run (Option Session × List ImportIssue)
  session_made issues line made = do
    session ← made
    elim session [
      | some s ↦ ok (some s, issues)
      | none ↦ ok (none, issues ++ construction_issue line ∷ [])
    ]

  abbrev session_named :
      Object
      → List ImportIssue
      → ℕ
      → ℕ
      → Option ℕ
      → Option String × Option ImportIssue
      → Run (Option Session × List ImportIssue)
  session_named content issues source next line (name, some issue) = ok (none, issues ++ issue ∷ [])
  session_named content issues source next line (name, none) =
      session_made issues line (constructed (make_session py next source name content))

  abbrev session_keyed :
      EntityMapping
      → Object
      → List ImportIssue
      → ℕ
      → ℕ
      → Option ℕ
      → Option ImportIssue
      → Run (Option Session × List ImportIssue)
  session_keyed entity content issues source next line (some issue) =
      ok (none, issues ++ issue ∷ [])
  session_keyed entity content issues source next line none =
      session_named content issues source next line
        (name_of entity.target "agent_name" content line false)

  -- `_build_session`, on at least one entry.
  unfoldable pub build_session :
      EntityMapping → List Entry → ℕ → ℕ → Option ℕ → Run (Option Session × List ImportIssue)
  unfolding check_natural_key name_of make_session
  build_session entity [] source next line = ok (none, [])
  build_session entity (e ∷ es) source next line =
      session_keyed entity e.content (several (e ∷ es) line) source next line
        (check_natural_key entity e.content line)

  abbrev with_issues : {A : Type 0} → Calls A → List ImportIssue → Calls A
  with_issues c issues = record c { issues = c.issues ++ issues }

  abbrev with_call : {A : Type 0} → Calls A → List ReferenceRequest → Option ℕ → Option A → Calls A
  with_call c references line none = with_issues c (construction_issue line ∷ [])
  with_call c references line (some call) = record c {
    calls = c.calls ++ call ∷ [];
    references = c.references ++ references;
    next_id = suc c.next_id;
  }

  -- A model's provider is part of its key.
  abbrev pub provider_context : Option String → List (String × String)
  provider_context none = []
  provider_context (some p) = ("provider_name", p) ∷ []

  abbrev pub request : Option String → (String → ReferenceRequest) → List ReferenceRequest
  request none ask = []
  request (some name) ask = ask name ∷ []

  abbrev pub model_references : Option String → Option String → List ReferenceRequest
  model_references provider_name model_name =
      request (truthy provider_name) (λ n. record { kind = provider; name = n; context = [] })
      ++ request (truthy model_name) (λ n. record {
        kind = model;
        name = n;
        context = provider_context (truthy provider_name);
      })

  abbrev issues_of : Option ImportIssue → List ImportIssue
  issues_of none = []
  issues_of (some i) = i ∷ []

  abbrev model_named :
      Session
      → Object
      → Option ℕ
      → Option String × Option ImportIssue
      → Option String × Option ImportIssue
      → Calls ModelCall
      → Run (Calls ModelCall)
  model_named session content line (name, none) (provider_name, none) c = do
    call ← constructed (make_model_call py c.next_id session.id name provider_name content)
    ok (with_call c (model_references provider_name name) line call)
  model_named session content line (name, i) (provider_name, j) c =
      ok (with_issues c (issues_of i ++ issues_of j))

  abbrev model_keyed :
      EntityMapping
      → Session
      → Object
      → Option ℕ
      → Option ImportIssue
      → Calls ModelCall
      → Run (Calls ModelCall)
  model_keyed entity session content line (some issue) c = ok (with_issues c (issue ∷ []))
  model_keyed entity session content line none c =
      model_named session content line (name_of entity.target "model_name" content line false)
        (name_of entity.target "provider_name" content line false) c

  -- One round of the loop of `_build_model_calls`.
  unfoldable pub add_model_call :
      EntityMapping → Session → Option ℕ → Entry → Calls ModelCall → Run (Calls ModelCall)
  unfolding check_natural_key name_of make_model_call
  add_model_call entity session line e c =
      model_keyed entity session (indexed e) line (check_natural_key entity (indexed e) line) c

  unfoldable pub add_model_calls :
      EntityMapping → Session → Option ℕ → List Entry → Calls ModelCall → Run (Calls ModelCall)
  add_model_calls entity session line [] c = ok c
  add_model_calls entity session line (e ∷ es) c = do
    next ← add_model_call entity session line e c
    add_model_calls entity session line es next

  unfoldable pub build_model_calls :
      EntityMapping → List Entry → Option Session → ℕ → Option ℕ → Run (Calls ModelCall)
  unfolding add_model_calls add_model_call
  build_model_calls entity es none next line = ok (no_calls (parent_missing line es) next)
  build_model_calls entity es (some session) next line =
      add_model_calls entity session line es (no_calls [] next)

  abbrev tool_named :
      Session
      → Object
      → Option ℕ
      → Option String × Option ImportIssue
      → Calls ToolCall
      → Run (Calls ToolCall)
  tool_named session content line (name, some issue) c = ok (with_issues c (issue ∷ []))
  tool_named session content line (none, none) c = ok (with_issues c (construction_issue line ∷ []))
  tool_named session content line (some name, none) c = do
    call ← constructed (make_tool_call py c.next_id session.id name content)
    ok (with_call c (record { kind = tool; name = name; context = [] } ∷ []) line call)

  abbrev tool_keyed :
      EntityMapping
      → Session
      → Object
      → Option ℕ
      → Option ImportIssue
      → Calls ToolCall
      → Run (Calls ToolCall)
  tool_keyed entity session content line (some issue) c = ok (with_issues c (issue ∷ []))
  tool_keyed entity session content line none c =
      tool_named session content line (name_of entity.target "tool_name" content line true) c

  -- One round of the loop of `_build_tool_calls`.
  unfoldable pub add_tool_call :
      EntityMapping → Session → Option ℕ → Entry → Calls ToolCall → Run (Calls ToolCall)
  unfolding check_natural_key name_of make_tool_call
  add_tool_call entity session line e c =
      tool_keyed entity session (indexed e) line (check_natural_key entity (indexed e) line) c

  unfoldable pub add_tool_calls :
      EntityMapping → Session → Option ℕ → List Entry → Calls ToolCall → Run (Calls ToolCall)
  add_tool_calls entity session line [] c = ok c
  add_tool_calls entity session line (e ∷ es) c = do
    next ← add_tool_call entity session line e c
    add_tool_calls entity session line es next

  unfoldable pub build_tool_calls :
      EntityMapping → List Entry → Option Session → ℕ → Option ℕ → Run (Calls ToolCall)
  unfolding add_tool_calls add_tool_call
  build_tool_calls entity es none next line = ok (no_calls (parent_missing line es) next)
  build_tool_calls entity es (some session) next line =
      add_tool_calls entity session line es (no_calls [] next)

  abbrev pub sessions_of : Option Session → List Session
  sessions_of none = []
  sessions_of (some s) = s ∷ []

  abbrev pub agent_request : Option Session → List ReferenceRequest
  agent_request none = []
  agent_request (some s) =
      request (truthy s.agent_name) (λ n. record { kind = agent; name = n; context = [] })

  abbrev pub session_step :
      Option EntityMapping → List Entry → ℕ → ℕ → Option ℕ → Run (Option Session × List ImportIssue)
  session_step none es source next line = ok (none, [])
  session_step (some entity) es source next line = build_session entity es source next line

  abbrev pub model_step :
      Option EntityMapping → List Entry → Option Session → ℕ → Option ℕ → Run (Calls ModelCall)
  model_step none es session next line = ok (no_calls [] next)
  model_step (some entity) es session next line = build_model_calls entity es session next line

  abbrev pub tool_step :
      Option EntityMapping → List Entry → Option Session → ℕ → Option ℕ → Run (Calls ToolCall)
  tool_step none es session next line = ok (no_calls [] next)
  tool_step (some entity) es session next line = build_tool_calls entity es session next line

  -- `RecordNormalizer.normalize`, whose engine has no regex extractor. The number is the next id.
  unfoldable pub normalize : Mapping → Value → ℕ → Option ℕ → ℕ → Run (NormalizationResult × ℕ)
  unfolding by_target of_target build_session build_model_calls build_tool_calls apply
  normalize mapping raw source line next = do
    let applied = apply py none mapping raw line
    let found = λ (target : String). by_target target mapping.entities
    (session, session_issues) ←
        session_step (found "session") (of_target "session" applied.0) source next line
    models ←
        model_step (found "model_call") (of_target "model_call" applied.0) session (suc next) line
    tools ←
        tool_step (found "tool_call") (of_target "tool_call" applied.0) session models.next_id line
    ok (
      record {
        sessions = sessions_of session;
        model_calls = models.calls;
        tool_calls = tools.calls;
        issues = applied.1 ++ session_issues ++ models.issues ++ tools.issues;
        reference_requests = agent_request session ++ models.references ++ tools.references;
      },
      tools.next_id,
    )
