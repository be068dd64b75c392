-- ===== src/Imports/Create.antt =====
-- src/agentlen/application/use_cases/create_import.py over the tables that it reads and writes
-- (src/agentlen/infrastructure/persistence/repositories/sql.py). A request that raises leaves the
-- transaction uncommitted, so only a success returns new tables. One request runs at a time. The
-- columns that no check reads, and the texts and details of the refusals, are left out.
pub mod Guarded
use agent_len.Base.{
  require, ensure, ℕ, suc, ◌+◌, String, Bool, true, false, not, ◌&&◌, Option, none, some, List, [],
  ◌∷◌, ◌++◌,
}
use agent_len.Base.{Result, ok, err, ◌>>=◌, ◌>>◌, ◌==◌, nat_eq, string_eq, contains, if◌then◌else◌}
use agent_len.Jobs.{Status, pending, running, succeeded, ImportRun, find_run}

pub record FileUpload : Type 0 where
  pub id : ℕ
  pub format : String
  pub content_hash : String

pub record MappingRow : Type 0 where
  pub id : ℕ
  pub data_source_id : ℕ
  pub name : String
  pub version : ℕ
  pub source_format : String
  pub status : String

pub record Tables : Type 0 where
  pub data_sources : List ℕ
  pub file_uploads : List FileUpload
  pub mappings : List MappingRow
  pub runs : List ImportRun
  pub next_run_id : ℕ

pub data Refusal : Type 0 where
  no_data_source no_file_upload no_mapping : Refusal
  mapping_source_mismatch mapping_not_active mapping_format_mismatch : Refusal
  already_imported : ℕ → Status → Refusal

-- `BLOCKING_STATUSES`
abbrev pub is_blocking : Status → Bool
is_blocking pending = true
is_blocking running = true
is_blocking succeeded = true
is_blocking _ = false

abbrev pub find_file : ℕ → List FileUpload → Option FileUpload
find_file id [] = none
find_file id (f ∷ files) = if f.id == id then some f else find_file id files

abbrev pub find_mapping : ℕ → List MappingRow → Option MappingRow
find_mapping id [] = none
find_mapping id (m ∷ mappings) = if m.id == id then some m else find_mapping id mappings

-- `_check_same_source`, `_check_active` and `_check_format`
abbrev pub check_same_source : MappingRow → ℕ → Result Refusal (Unit {0})
check_same_source row source = ensure (row.data_source_id == source) mapping_source_mismatch

abbrev pub check_active : MappingRow → Result Refusal (Unit {0})
check_active row = ensure (row.status == "active") mapping_not_active

abbrev pub check_format : MappingRow → String → Result Refusal (Unit {0})
check_format row format = ensure (row.source_format == format) mapping_format_mismatch

-- `import_run_ids`: the runs of a file, the newest first. The table stands in the order of the ids.
unfoldable pub import_run_ids : ℕ → List ImportRun → List ℕ
import_run_ids file [] = []
import_run_ids file (r ∷ runs) =
    let rest = import_run_ids file runs in
    if r.file_upload_id == file then rest ++ r.id ∷ [] else rest

abbrev pub blocks : ℕ → ImportRun → Bool
blocks mapping r = r.mapping_id == mapping && is_blocking r.status

abbrev pub look_at : ℕ → Option ImportRun → Result Refusal (Unit {0})
look_at mapping none = ok tt
look_at mapping (some r) = if blocks mapping r then err (already_imported r.id r.status) else ok tt

-- `_check_not_already_run`, over the ids of the file's runs.
unfoldable pub check_not_already_run : List ℕ → ℕ → List ImportRun → Result Refusal (Unit {0})
check_not_already_run [] mapping runs = ok tt
check_not_already_run (id ∷ ids) mapping runs = do
  look_at mapping (find_run id runs)
  check_not_already_run ids mapping runs

abbrev pub new_run : ℕ → ℕ → ℕ → ℕ → ℕ → ImportRun
new_run id source file mapping now = record {
  id = id;
  data_source_id = source;
  file_upload_id = file;
  mapping_id = mapping;
  status = pending;
  created_at = now;
  locked_at = none;
  locked_by = none;
  started_at = none;
  finished_at = none;
  attempts = 0;
  error_summary = none;
}

-- `CreateImport.execute`
unfoldable pub create_import : ℕ → ℕ → ℕ → ℕ → Tables → Result Refusal (ℕ × Tables)
unfolding import_run_ids check_not_already_run
create_import source file mapping now t = do
  ensure (contains source t.data_sources) no_data_source
  upload ← require no_file_upload (find_file file t.file_uploads)
  row ← require no_mapping (find_mapping mapping t.mappings)
  check_same_source row source
  check_active row
  check_format row upload.format
  check_not_already_run (import_run_ids file t.runs) mapping t.runs
  ok (
    t.next_run_id,
    record t {
      runs = t.runs ++ new_run t.next_run_id source file mapping now ∷ [];
      next_run_id = suc t.next_run_id;
    },
  )
