-- ===== src/Examples/Imported.antt =====
-- An import of a file with one record, and a name resolved twice.
use agent_len.Base.{
  string_eq, pair_eq, list_eq, ℕ, String, ◌≡◌, refl, true, none, some, List, [], ◌∷◌, ok, All,
}
use agent_len.Base.Dict.{lookup, Extends}
use agent_len.Json.{Members, str, arr, obj, item, nil, end, member}
use agent_len.Running.Kept.{KeepsTools, prepare_batch-KeepsTools}
use agent_len.Running.Counters.{new_counters}
use agent_len.Base.{◌≤◌}
use agent_len.Running.Bounded.{run_import-rejected}
use agent_len.Examples.Sessions.{mapping as tool_mapping}
use agent_len.JsonPath.{ident_start, ident_part}
use agent_len.Mapping.{ImportIssue, rejected, FieldRule, EntityMapping, Mapping, target_field_types}
use agent_len.Normalizer.Entities.{ReferenceRequest, tool}
use agent_len.Storage.Referentials.{Referentials, resolve}
use agent_len.Running.References.{Resolution, kind_eq, request_key, execute}
use agent_len.Running.References.Cached.{execute-cached}
use agent_len.Running.Counters.{ImportReport}
use agent_len.Running.Batch.{Database}
use agent_len.Running.Execute.{Reading, file_end, batch_then, Store, run_import}
use agent_len.Running.Counted.{Told, run_import-Told}
use agent_len.Base.{returns-ok}
use agent_len.Running.Batch.{RunContext, Progress, Prepared, prepare_batch}
use agent_len.Running.Rows.{batch_rows}
use agent_len.Running.Execute.{RunRow, StoredFile, prepared}
use agent_len.Running.Totals.{ValidDatabase}
use agent_len.Running.Whole.{Explained, run_import-ValidDatabase}
use agent_len.Examples.Stored.{none_valid, server}
use agent_len.Examples.Records.{plain}
use agent_len.Examples.Stored.{no_referentials, no_sessions, no_tool_calls}

abbrev rule : String → String → FieldRule
rule target source = record { target = target; source = source; required = true; operators = [] }

abbrev sessions : EntityMapping
sessions = record {
  target = "session";
  natural_key = "external_id" ∷ [];
  fields = rule "external_id" "$.id" ∷ [];
  iterate = none;
  parent = none;
}

abbrev mapping : Mapping
mapping = record {
  name = "sessions";
  version = 1;
  source_format = "jsonl";
  entities = sessions ∷ [];
}

abbrev file : String → String → Reading
file path format =
    batch_then (member "id" (str "s1") end ∷ end ∷ [])
      (batch_then (member "id" (str "s1") end ∷ []) file_end)

abbrev empty : Database
empty = record {
  raw_records = record { next_id = 1; rows = [] };
  sessions = no_sessions;
  model_calls = record { next_id = 1; rows = [] };
  tool_calls = no_tool_calls;
  referentials = no_referentials;
  import_issues = [];
  server = server;
}

abbrev running : RunRow
running = record {
  data_source_id = 7;
  file_upload_id = 3;
  mapping_id = 2;
  status = "running";
  records_read = 0;
  records_imported = 0;
  records_duplicate = 0;
  records_rejected = 0;
}

abbrev stored_file : StoredFile
stored_file = record { storage_path = "f"; format = "jsonl" }

abbrev store : Store
store = record {
  import_runs = (5, running) ∷ [];
  mappings = (2, mapping) ∷ [];
  file_uploads = (3, stored_file) ∷ [];
  database = empty;
}

abbrev missing_id : ImportIssue
missing_id = record {
  severity = rejected;
  code = "MISSING_REQUIRED_FIELD";
  field_path = some "entities[target=session].fields[target=external_id]";
  line_number = some 2;
}

abbrev report : ImportReport
report = record {
  records_read = 3;
  records_imported = 1;
  records_duplicate = 0;
  records_rejected = 1;
  issues = missing_id ∷ [];
}

imported : run_import plain file 1 5 store ≡ (ok report, (run_import plain file 1 5 store).1)
unfolding run_import ident_start ident_part target_field_types
imported = refl

abbrev grep_request : ReferenceRequest
grep_request = record { kind = tool; name = "grep"; context = [] }

abbrev resolution : Resolution Referentials
resolution = record {
  resolved = (request_key grep_request, 1) ∷ [];
  cache = (request_key grep_request, 1) ∷ [];
  state = record no_referentials {
    tools = record { next_id = 2; rows = record { id = 1; key = "grep"; value = tt } ∷ [] };
  };
}

resolved_once :
    execute resolve (grep_request ∷ grep_request ∷ []) [] no_referentials ≡ ok resolution
unfolding execute resolve
resolved_once = refl

run_import-rejected_example : report.records_rejected ≤ report.records_read
run_import-rejected_example =
    run_import-rejected plain file 1 5 store (run_import plain file 1 5 store).1 imported

run_import-Told_example : Told plain file 5 store (run_import plain file 1 5 store).1 report
run_import-Told_example =
    run_import-Told plain file 1 5 store (run_import plain file 1 5 store).1 imported

execute-cached_example :
    All
      (λ q.
        (id : ℕ) × (lookup (request_key q) resolution.resolved ≡ some id)
        × (lookup (request_key q) resolution.cache ≡ some id))
      (grep_request ∷ grep_request ∷ [])
    × Extends [] resolution.cache
    × ((again : Resolution Referentials) × (execute resolve
            (grep_request ∷ grep_request ∷ [])
            resolution.cache
            no_referentials
          ≡ ok again)
        × (again.state ≡ no_referentials)
        × (again.cache ≡ resolution.cache))
execute-cached_example =
    execute-cached resolve (grep_request ∷ grep_request ∷ []) [] no_referentials no_referentials
      resolved_once

abbrev context : RunContext
context = record { mapping = mapping; data_source_id = 7; import_run_id = 5 }

ready : prepared plain 5 store ≡ ok (running, (mapping, stored_file))
unfolding prepared ident_start ident_part target_field_types
ready = refl

empty_valid : ValidDatabase empty
empty_valid = record {
  raw_records = (tt, tt);
  sessions = (tt, tt);
  model_calls = (tt, tt);
  tool_calls = (tt, tt);
  referentials = none_valid;
}

run_import-ValidDatabase_example :
    let ended = run_import plain file 1 5 store in
    ValidDatabase ended.1.database × Explained plain context (file "f" "jsonl") ended.0
run_import-ValidDatabase_example =
    run_import-ValidDatabase plain file 1 5 store running mapping stored_file ready empty_valid

-- A record with two rows of tool calls, the second without a name.
abbrev with_tools : List Members
with_tools =
    member "id" (str "s1")
      (member "tools" (arr (item (obj (member "name" (str "grep") end)) (item (obj end) nil))) end)
    ∷ []

abbrev begun : Progress
begun = record { counters = new_counters; cache = []; next_id = 10; database = empty }

abbrev tool_context : RunContext
tool_context = record { mapping = tool_mapping; data_source_id = 7; import_run_id = 5 }

made : (x : Prepared) × (prepare_batch plain tool_context 3 with_tools begun ≡ ok x)
unfolding prepare_batch ident_start ident_part target_field_types
made = returns-ok (prepare_batch plain tool_context 3 with_tools begun) refl

prepare_batch-KeepsTools_example :
    KeepsTools made.0.references.resolved 5
      ((3, 1) ∷ [])
      made.0.normalised
      (batch_rows made.0.references.resolved 5 ((3, 1) ∷ []) made.0.normalised)
prepare_batch-KeepsTools_example =
    prepare_batch-KeepsTools plain tool_context 3 with_tools begun ((3, 1) ∷ []) made.1
