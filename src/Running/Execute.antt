-- ===== src/Running/Execute.antt =====
-- `RunImport.execute` of src/agentlen/application/use_cases/run_import.py. The batches of the file are an
-- argument, what the reader gives for a path and a format.
use agent_len.Base.{ℕ, suc, ◌+◌, String, ◌==◌, nat_eq}
use agent_len.Base.{List, [], ◌∷◌, ◌++◌, length, if◌then◌else◌, Result, ok, err, require, ◌>>=◌}
use agent_len.Base.Dict.{Dict, lookup}
use agent_len.Json.{Members}
use agent_len.Mapping.{Mapping, ImportIssue}
use agent_len.Python.{Python, Exc}
use agent_len.Engine.Operators.{Run}
use agent_len.Validator.{ValidationError, validate}
use agent_len.Running.Counters.{ImportReport, new_counters, to_report, run_status}
use agent_len.Running.Batch.{Database, RunContext, Progress, import_batch}

pub record RunRow : Type 0 where
  pub data_source_id : ℕ
  pub file_upload_id : ℕ
  pub mapping_id : ℕ
  pub status : String
  pub records_read : ℕ
  pub records_imported : ℕ
  pub records_duplicate : ℕ
  pub records_rejected : ℕ

pub record StoredFile : Type 0 where
  pub storage_path : String
  pub format : String

pub record Store : Type 0 where
  pub import_runs : Dict ℕ RunRow
  pub mappings : Dict ℕ Mapping
  pub file_uploads : Dict ℕ StoredFile
  pub database : Database

pub data ImportFailure : Type 0 where
  run_not_found mapping_not_found file_not_found : ImportFailure
  mapping_invalid : List ValidationError → ImportFailure
  failed : Exc → ImportFailure

-- What the loop over the batches carries.
pub record Loop : Type 0 where
  pub line_number : ℕ
  pub all_issues : List ImportIssue
  pub progress : Progress

-- What the reader gives: a batch and then more, the end of the file, or an exception.
pub data Reading : Type 0 where
  file_end : Reading
  broken : Exc → Reading
  batch_then : List Members → Reading → Reading

-- The loop: a batch that raises ends it, as does the reader, and the batches before it stay stored.
unfoldable pub import_batches : Python → RunContext → Reading → Loop → Result Exc Loop × Database
unfolding import_batch
import_batches py context file_end l = (ok l, l.progress.database)
import_batches py context (broken e) l = (err e, l.progress.database)
import_batches py context (batch_then batch batches) l =
    elim (import_batch py context (suc l.line_number) batch l.progress) [
      | err e ↦ (err e, l.progress.database)
      | ok stored ↦ import_batches py context batches (record {
        line_number = l.line_number + length batch;
        all_issues = l.all_issues ++ stored.1;
        progress = stored.0;
      })
    ]

abbrev pub first_loop : Database → ℕ → Loop
first_loop db next_id = record {
  line_number = 0;
  all_issues = [];
  progress = record { counters = new_counters; cache = []; next_id = next_id; database = db };
}

-- The columns that `save_report` sets.
abbrev pub reported : ImportReport → String → RunRow → RunRow
reported report status row = record row {
  status = status;
  records_read = report.records_read;
  records_imported = report.records_imported;
  records_duplicate = report.records_duplicate;
  records_rejected = report.records_rejected;
}

-- `save_report`, whose UPDATE touches the run's row only.
unfoldable pub save_report : ℕ → ImportReport → String → Dict ℕ RunRow → Dict ℕ RunRow
save_report run report status [] = []
save_report run report status ((id, row) ∷ runs) =
    (id, if id == run then reported report status row else row) ∷ save_report run report status runs

-- What has been loaded before the first batch.
abbrev pub loaded : ℕ → Store → Result ImportFailure (RunRow × (Mapping × StoredFile))
loaded id store = require run_not_found (lookup id store.import_runs) >>= λ run.
    require mapping_not_found (lookup run.mapping_id store.mappings) >>= λ mapping.
    require file_not_found (lookup run.file_upload_id store.file_uploads) >>= λ file.
    ok (run, (mapping, file))

-- `if errors: raise MappingInvalidError`
abbrev pub accepted : Run (List ValidationError) → Result ImportFailure (Unit {0})
accepted (err e) = err (failed e)
accepted (ok []) = ok tt
accepted (ok (e ∷ errors)) = err (mapping_invalid (e ∷ errors))

unfoldable pub prepared :
    Python → ℕ → Store → Result ImportFailure (RunRow × (Mapping × StoredFile))
unfolding validate
prepared py id store = loaded id store >>= λ l. accepted (validate py l.1.0) >>= λ passed. ok l

abbrev pub finish :
    ℕ → Store → Result Exc Loop × Database → Result ImportFailure ImportReport × Store
finish id store (err e, db) = (err (failed e), record store { database = db })
finish id store (ok l, db) =
    let report = to_report l.progress.counters l.all_issues in
    (
      ok report,
      record store {
        import_runs = save_report id report (run_status l.progress.counters) store.import_runs;
        database = db;
      },
    )

-- `execute`, given the batches of a stored file and the first number for an entity.
unfoldable pub run_import :
    Python → (String → String → Reading) → ℕ → ℕ → Store → Result ImportFailure ImportReport × Store
unfolding prepared import_batches to_report run_status save_report
run_import py iter_batches next_id id store = elim (prepared py id store) [
  | err e ↦ (err e, store)
  | ok found ↦ finish id store (
      import_batches py
        (record {
          mapping = found.1.0;
          data_source_id = found.0.data_source_id;
          import_run_id = id;
        })
        (iter_batches found.1.1.storage_path found.1.1.format) (first_loop store.database next_id))
]
