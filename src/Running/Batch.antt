-- ===== src/Running/Batch.antt =====
-- `RunImport._import_batch` of src/agentlen/application/use_cases/run_import.py, one transaction: what
-- raises leaves no new state.
use agent_len.Base.{ℕ, suc, ◌+◌, String, ◌==◌, nat_eq, ltb, Option, none, some}
use agent_len.Base.{List, [], ◌∷◌, ◌++◌, length, if◌then◌else◌, ok, ◌>>=◌, require}
use agent_len.Base.Dict.{Dict, lookup}
use agent_len.Json.{Object, Members, entries}
use agent_len.Mapping.{Mapping, ImportIssue, Severity, duplicate, warning}
use agent_len.Python.{Python, key_error}
use agent_len.Engine.Operators.{Run}
use agent_len.Normalizer.{NormalizationResult}
use agent_len.Storage.Records.{RawRecordTable, IssueRow, add_raw_records, add_issues}
use agent_len.Storage.Outcome.{InsertOutcome, inserted_count, duplicate_count, ids}
use agent_len.Base.{map}
use agent_len.Storage.Table.{Table}
use agent_len.Storage.Constraints.{Server, Referents}
use agent_len.Storage.Sessions.{SessionTable, session_constraints, add_sessions}
use agent_len.Storage.Calls.{ModelCallTable, ToolCallTable, add_many_model_calls}
use agent_len.Storage.Calls.{add_many_tool_calls, model_constraints, tool_constraints}
use agent_len.Storage.Referentials.{Referentials, resolve}
use agent_len.Running.References.{CacheKey, Resolution, execute}
use agent_len.Running.Counters.{Counters, fresh, rejected_lines}
use agent_len.Running.Rows.{BatchRows, batch_rows, normalize_batch, found_issues, references_of}

-- The tables that a batch writes, and what it finds on the server besides.
pub record Database : Type 0 where
  pub raw_records : RawRecordTable
  pub sessions : SessionTable
  pub model_calls : ModelCallTable
  pub tool_calls : ToolCallTable
  pub referentials : Referentials
  pub import_issues : List IssueRow
  pub server : Server

-- `_RunContext`
pub record RunContext : Type 0 where
  pub mapping : Mapping
  pub data_source_id : ℕ
  pub import_run_id : ℕ

-- What one batch leaves to the next: the counters, the cache of references, the next id of an entity.
pub record Progress : Type 0 where
  pub counters : Counters
  pub cache : Dict CacheKey ℕ
  pub next_id : ℕ
  pub database : Database

-- `[(start_line + i, record) for i, record in enumerate(batch)]`
abbrev pub numbered : ℕ → List Members → List (ℕ × Object)
numbered line [] = []
numbered line (raw ∷ batch) = (line, entries raw) ∷ numbered (suc line) batch

-- `outcome.existing[entity_id] for entity_id in outcome.duplicates`
unfoldable pub duplicate_rows : List ℕ → Dict ℕ ℕ → Run (List ℕ)
duplicate_rows [] existing = ok []
duplicate_rows (entity ∷ entities) existing = do
  row ← require key_error (lookup entity existing)
  rows ← duplicate_rows entities existing
  ok (row ∷ rows)

abbrev run_issue : Severity → String → ImportIssue
run_issue severity code = record {
  severity = severity;
  code = code;
  field_path = none;
  line_number = none;
}

abbrev pub issue_if : ℕ → Severity → String → List ImportIssue
issue_if n severity code = if ltb 0 n then run_issue severity code ∷ [] else []

-- `raw_ids.get(issue.line_number or -1)`; no line is -1.
abbrev pub raw_of : Dict ℕ ℕ → Option ℕ → Option ℕ
raw_of raw_ids none = none
raw_of raw_ids (some line) = if line == 0 then none else lookup line raw_ids

abbrev pub located : Dict ℕ ℕ → List ImportIssue → List (ImportIssue × Option ℕ)
located raw_ids [] = []
located raw_ids (i ∷ issues) = (i, raw_of raw_ids i.line_number) ∷ located raw_ids issues

-- What follows the three insertions: the counters and the issues.
unfoldable pub count_batch :
    ℕ
    → List ImportIssue
    → InsertOutcome
    → InsertOutcome
    → InsertOutcome
    → List ℕ
    → Counters
    → Counters × List ImportIssue
unfolding fresh rejected_lines
count_batch read found sessions models tools existing c =
    let new_duplicates = fresh existing c.duplicate_sessions in
    let duplicates = length new_duplicates + duplicate_count models + duplicate_count tools in
    let unlinked = length models.unlinked + length tools.unlinked in
    let issues =
      found
      ++ issue_if duplicates duplicate "ALREADY_IMPORTED"
      ++ issue_if unlinked warning "PARENT_SESSION_MISSING" in
    (
      record {
        read = c.read + read;
        imported =
            c.imported + (inserted_count sessions + inserted_count models + inserted_count tools);
        duplicate = c.duplicate + duplicates;
        rejected = c.rejected + length (fresh (rejected_lines issues) []);
        duplicate_sessions = c.duplicate_sessions ++ new_duplicates;
      },
      issues,
    )

-- The records normalized, and their references resolved.
pub record Prepared : Type 0 where
  pub normalised : List (ℕ × NormalizationResult)
  pub next_id : ℕ
  pub references : Resolution Referentials

unfoldable pub prepare_batch : Python → RunContext → ℕ → List Members → Progress → Run Prepared
unfolding normalize_batch execute resolve
prepare_batch py context start_line batch p = do
  (normalised, next_id) ←
      normalize_batch py context.mapping context.data_source_id start_line p.next_id batch
  references ← execute resolve (references_of normalised) p.cache p.database.referentials
  ok (record { normalised = normalised; next_id = next_id; references = references })

-- The outcomes and tables of the three insertions.
pub record Inserted : Type 0 where
  pub sessions : InsertOutcome × SessionTable
  pub models : InsertOutcome × ModelCallTable
  pub tools : InsertOutcome × ToolCallTable
  pub existing : List ℕ

abbrev ids_in : {K V : Type 0} → Table K V → List ℕ
ids_in t = map (λ r. r.id) t.rows

-- The ids that a row may name: the raw records and references are those of the batch's transaction.
abbrev pub referents : RawRecordTable → Referentials → SessionTable → Referents
referents raw references sessions = record {
  raw_records = ids_in raw;
  agents = ids_in references.agents;
  repositories = ids_in references.repositories;
  models = ids_in references.models;
  tools = ids_in references.tools;
  sessions = ids_in sessions;
}

unfoldable pub insert_rows : BatchRows → RawRecordTable → Referentials → Database → Run Inserted
unfolding add_sessions add_many_model_calls add_many_tool_calls duplicate_rows ids
insert_rows rows raw references db = do
  sessions ←
      add_sessions (session_constraints db.server (referents raw references db.sessions))
        rows.sessions db.sessions
  let held = referents raw references sessions.1
  models ←
      add_many_model_calls (model_constraints db.server held) rows.model_calls (ids sessions.0)
        db.model_calls
  tools ←
      add_many_tool_calls (tool_constraints db.server held) rows.tool_calls (ids sessions.0)
        db.tool_calls
  existing ← duplicate_rows sessions.0.duplicates sessions.0.existing
  ok (record { sessions = sessions; models = models; tools = tools; existing = existing })

-- The counters and issues of a batch that is stored, and the rest of what it leaves.
abbrev pub finish_batch :
    RunContext
    → Progress
    → ℕ
    → Dict ℕ ℕ × RawRecordTable
    → Prepared
    → BatchRows
    → Inserted
    → Progress × List ImportIssue
finish_batch context p read raw prepared rows done =
    let counted =
      count_batch read (found_issues prepared.normalised ++ rows.issues) done.sessions.0
        done.models.0 done.tools.0 done.existing p.counters in
    (
      record {
        counters = counted.0;
        cache = prepared.references.cache;
        next_id = prepared.next_id;
        database = record {
          raw_records = raw.1;
          sessions = done.sessions.1;
          model_calls = done.models.1;
          tool_calls = done.tools.1;
          referentials = prepared.references.state;
          import_issues =
              add_issues context.import_run_id (located raw.0 counted.1) p.database.import_issues;
          server = p.database.server;
        };
      },
      counted.1,
    )

abbrev pub raw_of_batch :
    Python → RunContext → ℕ → List Members → Progress → Run (Dict ℕ ℕ × RawRecordTable)
raw_of_batch py context start_line batch p =
    add_raw_records py context.import_run_id (numbered start_line batch) p.database.raw_records

abbrev pub rows_of_batch : RunContext → Dict ℕ ℕ → Prepared → BatchRows
rows_of_batch context raw_ids prepared =
    batch_rows prepared.references.resolved context.import_run_id raw_ids prepared.normalised

-- `_import_batch`
unfoldable pub import_batch :
    Python → RunContext → ℕ → List Members → Progress → Run (Progress × List ImportIssue)
unfolding add_raw_records prepare_batch batch_rows insert_rows count_batch add_issues
import_batch py context start_line batch p = do
  raw ← raw_of_batch py context start_line batch p
  prepared ← prepare_batch py context start_line batch p
  let rows = rows_of_batch context raw.0 prepared
  inserted ← insert_rows rows raw.1 prepared.references.state p.database
  ok (finish_batch context p (length batch) raw prepared rows inserted)
