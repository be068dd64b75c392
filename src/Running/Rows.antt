-- ===== src/Running/Rows.antt =====
-- The rows that a batch is to store, in src/agentlen/application/use_cases/run_import.py: the loop over
-- the normalized records, `_reference_key` and `_resolved_id`.
use agent_len.Base.{ℕ, suc, String, Option, none, some, List, [], ◌∷◌, ◌++◌}
use agent_len.Base.{nat_eq, string_eq, pair_eq, list_eq, ok, ◌>>=◌}
use agent_len.Base.Dict.{Dict, lookup}
use agent_len.Json.{Members, obj}
use agent_len.Mapping.{Mapping, ImportIssue, Severity, rejected, warning, truthy}
use agent_len.Python.{Python}
use agent_len.Engine.Operators.{Run}
use agent_len.Normalizer.{NormalizationResult, normalize}
use agent_len.Normalizer.Entities.{Session, ModelCall, ToolCall, ReferenceKind, ReferenceRequest}
use agent_len.Normalizer.Entities.{agent, provider, model, tool, repository}
use agent_len.Storage.Sessions.{SessionRow}
use agent_len.Storage.Calls.{ModelCallRow, ToolCallRow}
use agent_len.Running.References.{CacheKey, kind_eq}

-- `_REFERENCE_FIELDS`, which has no entry for the other kinds.
abbrev pub reference_field : ReferenceKind → Option String
reference_field agent = some "entities[target=session].fields[target=agent_name]"
reference_field model = some "entities[target=model_call].fields[target=model_name]"
reference_field tool = some "entities[target=tool_call].fields[target=tool_name]"
reference_field provider = none
reference_field repository = none

abbrev pub provider_key : Option String → List (String × String)
provider_key none = []
provider_key (some name) = ("provider_name", name) ∷ []

-- `_reference_key`
unfoldable pub reference_key : ReferenceKind → Option String → Option String → Option CacheKey
reference_key kind none provider_name = none
reference_key kind (some name) provider_name =
    some (kind, (name, provider_key (truthy provider_name)))

abbrev pub unresolved : ReferenceKind → ℕ → Severity → ImportIssue
unresolved kind line severity = record {
  severity = severity;
  code = "REFERENCE_UNRESOLVED";
  field_path = reference_field kind;
  line_number = some line;
}

-- `_resolved_id`: the id, and the issue where there is none.
unfoldable pub resolved_id :
    Dict CacheKey ℕ → Option CacheKey → ℕ → Severity → Option ℕ × List ImportIssue
resolved_id resolved none line severity = (none, [])
resolved_id resolved (some key) line severity = elim (lookup key resolved) [
  | none ↦ (none, unresolved key.0 line severity ∷ [])
  | some id ↦ (some id, [])
]

pub record BatchRows : Type 0 where
  pub sessions : List SessionRow
  pub model_calls : List ModelCallRow
  pub tool_calls : List ToolCallRow
  pub issues : List ImportIssue

module _ (resolved : Dict CacheKey ℕ) (run raw line : ℕ) where
  unfoldable pub session_rows : List Session → List SessionRow × List ImportIssue
  unfolding reference_key resolved_id
  session_rows [] = ([], [])
  session_rows (session ∷ sessions) =
      let rest = session_rows sessions in
      let found = resolved_id resolved (reference_key agent session.agent_name none) line warning in
      (
        record {
          entity = session;
          import_run_id = run;
          raw_record_id = raw;
          agent_id = found.0;
          repository_id = none;
        }
            ∷ rest.0,
        found.1 ++ rest.1,
      )

  unfoldable pub model_rows : List ModelCall → List ModelCallRow × List ImportIssue
  unfolding reference_key resolved_id
  model_rows [] = ([], [])
  model_rows (call ∷ calls) =
      let rest = model_rows calls in
      let found =
        resolved_id resolved (reference_key model call.model_name call.provider_name) line
          warning in
      (
        record { entity = call; raw_record_id = raw; model_id = found.0 } ∷ rest.0,
        found.1 ++ rest.1,
      )

  abbrev tool_row : ToolCall → Option ℕ → List ToolCallRow
  tool_row call none = []
  tool_row call (some id) = record { entity = call; raw_record_id = raw; tool_id = id } ∷ []

  -- A tool call without an id is not stored.
  unfoldable pub tool_rows : List ToolCall → List ToolCallRow × List ImportIssue
  unfolding reference_key resolved_id
  tool_rows [] = ([], [])
  tool_rows (call ∷ calls) =
      let rest = tool_rows calls in
      let found =
        resolved_id resolved (reference_key tool (some call.tool_name) none) line rejected in
      (tool_row call found.0 ++ rest.0, found.1 ++ rest.1)

abbrev no_rows : BatchRows
no_rows = record { sessions = []; model_calls = []; tool_calls = []; issues = [] }

-- The rows of one record, if its raw record was stored now and not by an earlier attempt.
unfoldable pub record_rows : Dict CacheKey ℕ → ℕ → Dict ℕ ℕ → ℕ × NormalizationResult → BatchRows
unfolding session_rows model_rows tool_rows
record_rows resolved run raw_ids (line, result) = elim (lookup line raw_ids) [
  | none ↦ no_rows
  | some raw ↦
      let sessions = session_rows resolved run raw line result.sessions in
      let models = model_rows resolved run raw line result.model_calls in
      let tools = tool_rows resolved run raw line result.tool_calls in
      record {
        sessions = sessions.0;
        model_calls = models.0;
        tool_calls = tools.0;
        issues = sessions.1 ++ models.1 ++ tools.1;
      }
]

unfoldable pub batch_rows :
    Dict CacheKey ℕ → ℕ → Dict ℕ ℕ → List (ℕ × NormalizationResult) → BatchRows
unfolding record_rows
batch_rows resolved run raw_ids [] = no_rows
batch_rows resolved run raw_ids (one ∷ normalised) =
    let here = record_rows resolved run raw_ids one in
    let rest = batch_rows resolved run raw_ids normalised in
    record {
      sessions = here.sessions ++ rest.sessions;
      model_calls = here.model_calls ++ rest.model_calls;
      tool_calls = here.tool_calls ++ rest.tool_calls;
      issues = here.issues ++ rest.issues;
    }

-- The loop that normalizes the records, from a line and an id on.
unfoldable pub normalize_batch :
    Python → Mapping → ℕ → ℕ → ℕ → List Members → Run (List (ℕ × NormalizationResult) × ℕ)
unfolding normalize
normalize_batch py mapping source line next [] = ok ([], next)
normalize_batch py mapping source line next (raw ∷ batch) = do
  (result, after) ← normalize py mapping (obj raw) source (some line) next
  (rest, last) ← normalize_batch py mapping source (suc line) after batch
  ok ((line, result) ∷ rest, last)

abbrev pub found_issues : List (ℕ × NormalizationResult) → List ImportIssue
found_issues [] = []
found_issues ((line, result) ∷ more) = result.issues ++ found_issues more

abbrev pub references_of : List (ℕ × NormalizationResult) → List ReferenceRequest
references_of [] = []
references_of ((line, result) ∷ more) = result.reference_requests ++ references_of more
