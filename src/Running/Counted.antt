-- ===== src/Running/Counted.antt =====
-- What the report of src/agentlen/application/use_cases/run_import.py says of the records read.
use agent_len.Base.{ℕ, suc, ◌+◌, ◌≤◌, String, ◌≡◌, ◌↔◌, refl, ap, ◌∙◌, sym, inl, inr}
use agent_len.Base.{◌==◌, nat_eq, ltb, some, arith}
use agent_len.Base.{List, [], ◌∷◌, ◌++◌, length, Result, ok, err}
use agent_len.Base.{ok-injective, >>=-eq-ok, Bool-cases}
use agent_len.Base.Dict.{Dict, lookup}
use agent_len.Json.{Members}
use agent_len.Mapping.{ImportIssue}
use agent_len.Python.{Python, Exc}
use agent_len.Running.Counters.{Counters, ImportReport, to_report, run_status}
use agent_len.Running.Batch.{Database, RunContext, Progress, import_batch, count_batch}
use agent_len.Running.Execute.{
  Reading, file_end, broken, batch_then, Loop, import_batches, first_loop, Store, RunRow,
  run_import,
}
use agent_len.Running.Execute.{finish, prepared, save_report}
use agent_len.Base.{Result-cases}
use agent_len.Running.Batch.{Prepared, Inserted, prepare_batch, insert_rows, finish_batch}
use agent_len.Running.Batch.{raw_of_batch, rows_of_batch}
use agent_len.Storage.Records.{RawRecordTable}
use mathlib.Core.Option.{some-injective}
use agent_len.Base.{require, require-ok}
use agent_len.Base.{ltb→lt}
use mathlib.Core.Path.{subst}
use agent_len.Mapping.{Mapping}
use agent_len.Engine.Operators.{Run}
use agent_len.Validator.{ValidationError}
use agent_len.Running.Execute.{run_not_found, mapping_not_found, file_not_found}
use agent_len.Running.Execute.{StoredFile, reported, loaded, accepted}
use agent_len.Validator.{validate}

-- The records of all batches.
abbrev pub total_length : Reading → ℕ
total_length file_end = 0
total_length (broken e) = 0
total_length (batch_then b batches) = length b + total_length batches

-- The reader came to the end of the file.
abbrev pub ReachesEnd : Reading → Type 0
ReachesEnd file_end = Unit
ReachesEnd (broken e) = ⊥
ReachesEnd (batch_then b batches) = ReachesEnd batches

module _ (py : Python) (context : RunContext) (line : ℕ) (batch : List Members) (p : Progress) where
  -- What a batch that is imported has run through.
  pub record Ran (next : Progress × List ImportIssue) : Type 0 where
    pub raw : Dict ℕ ℕ × RawRecordTable
    pub stores : raw_of_batch py context line batch p ≡ ok raw
    pub made : Prepared
    pub prepares : prepare_batch py context line batch p ≡ ok made
    pub written : Inserted
    pub inserts :
        insert_rows (rows_of_batch context raw.0 made) raw.1 made.references.state p.database
        ≡ ok written
    pub finished :
        next
        ≡ finish_batch context p (length batch) raw made (rows_of_batch context raw.0 made) written

  pub import_batch-Ran :
      {next : Progress × List ImportIssue}
      → import_batch py context line batch p ≡ ok next
      → Ran next
  unfolding import_batch
  import_batch-Ran ran =
      let (raw, stores, r0) = >>=-eq-ok (raw_of_batch py context line batch p) _ ran in
      let (prepared, prepares, r1) = >>=-eq-ok (prepare_batch py context line batch p) _ r0 in
      let (inserted, inserts, r2) =
        >>=-eq-ok
          (insert_rows (rows_of_batch context raw.0 prepared) raw.1 prepared.references.state
            p.database)
          _ r1 in
      record {
        raw = raw;
        stores = stores;
        made = prepared;
        prepares = prepares;
        written = inserted;
        inserts = inserts;
        finished = sym (ok-injective r2);
      }

  pub import_batch-read :
      {next : Progress × List ImportIssue}
      → import_batch py context line batch p ≡ ok next
      → next.0.counters.read ≡ p.counters.read + length batch
  unfolding count_batch
  import_batch-read ran = ap (λ n. n.0.counters.read) (import_batch-Ran ran).finished

module _ (py : Python) (context : RunContext) where
  import_batches-read :
      (batches : Reading) (l : Loop) {last : Loop} {db : Database}
      → import_batches py context batches l ≡ (ok last, db)
      → (last.progress.counters.read ≡ l.progress.counters.read + total_length batches)
        × (last.line_number ≡ l.line_number + total_length batches)
        × ReachesEnd batches
  unfolding import_batches
  import_batches-read (broken e) l ran = cc ran
  import_batches-read file_end l ran =
      let same = ok-injective (ap (λ r. r.0) ran) in
      (
        omega (arith, ap (λ d. d.progress.counters.read) same),
        omega (arith, ap (λ d. d.line_number) same),
        tt,
      )
  import_batches-read (batch_then batch batches) l ran =
      elim (Result-cases (import_batch py context (suc l.line_number) batch l.progress)) [
        | inr (e, failed) ↦ absurd (cc (rw (failed, import_batches) at ran))
        | inl (next, imported) ↦
            let rest =
              import_batches-read batches
                (record {
                  line_number = l.line_number + length batch;
                  all_issues = l.all_issues ++ next.1;
                  progress = next.0;
                })
                (rw (imported, import_batches) at ran) in
            let here = import_batch-read py context (suc l.line_number) batch l.progress imported in
            (omega (arith, rest.0, here), omega (arith, rest.1), rest.2)
      ]

lookup-save_report :
    (id : ℕ) (report : ImportReport) (status : String) (runs : Dict ℕ RunRow) {row : RunRow}
    → lookup id runs ≡ some row
    → lookup id (save_report id report status runs) ≡ some (reported report status row)
unfolding save_report
lookup-save_report id report status [] h = cc
lookup-save_report id report status ((j, r) ∷ runs) {row} h = elim (Bool-cases (j == id)) [
  | inl same ↦
      rw same (ap (λ r. some (reported report status r)) (some-injective r row (rw same at h)))
  | inr other ↦ rw other (lookup-save_report id report status runs (rw other at h))
]

-- What a finished run tells: the records read are those of the file of the run, and the run's row
-- has the report's numbers and a status, `partial` exactly if records were rejected.
pub record Told (py : Python) (read : String → String → Reading) (id : ℕ) (store after : Store)
    (report : ImportReport) : Type 0 where
  pub row : RunRow
  pub has_row : lookup id store.import_runs ≡ some row
  pub file : StoredFile
  pub found : lookup row.file_upload_id store.file_uploads ≡ some file
  pub all_read : report.records_read ≡ total_length (read file.storage_path file.format)
  pub whole : ReachesEnd (read file.storage_path file.format)
  pub status : String
  pub saved : lookup id after.import_runs ≡ some (reported report status row)
  pub partial : (status ≡ "partial") ↔ (1 ≤ report.records_rejected)

status_partial : (c : Counters) → (run_status c ≡ "partial") ↔ (1 ≤ c.rejected)
unfolding run_status
status_partial c = elim (Bool-cases (ltb 0 c.rejected)) [
  | inl y ↦ rw y ((λ h. ltb→lt 0 c.rejected y), (λ h. refl))
  | inr n ↦ rw n ((λ h. absurd (cc h)), (λ h. absurd (ground (arith, n, h))))
]

accepted-ok : (r : Run (List ValidationError)) {u : Unit {0}} → accepted r ≡ ok u → r ≡ ok []
accepted-ok (err e) h = cc
accepted-ok (ok []) h = refl
accepted-ok (ok (e ∷ es)) h = cc

prepared-ready :
    (py : Python) (id : ℕ) (store : Store) {row : RunRow} {mapping : Mapping} {file : StoredFile}
    → prepared py id store ≡ ok (row, (mapping, file))
    → (lookup id store.import_runs ≡ some row)
      × (lookup row.file_upload_id store.file_uploads ≡ some file)
      × (validate py mapping ≡ ok [])
unfolding prepared
prepared-ready py id store {row} {mapping} {file} ready =
    let (l, loads, r1) = >>=-eq-ok (loaded id store) _ ready in
    let (u, valid, r2) = >>=-eq-ok (accepted (validate py l.1.0)) _ r1 in
    let (r, has_row, r3) =
      >>=-eq-ok (require run_not_found (lookup id store.import_runs)) _ loads in
    let (m, has_mapping, r4) =
      >>=-eq-ok (require mapping_not_found (lookup r.mapping_id store.mappings)) _ r3 in
    let (f, has_file, r5) =
      >>=-eq-ok (require file_not_found (lookup r.file_upload_id store.file_uploads)) _ r4 in
    let early =
      subst
        (λ (x : RunRow × (Mapping × StoredFile)).
          (lookup id store.import_runs ≡ some x.0)
          × (lookup x.0.file_upload_id store.file_uploads ≡ some x.1.1))
        (ok-injective r5)
        (
          require-ok run_not_found (lookup id store.import_runs) has_row,
          require-ok file_not_found (lookup r.file_upload_id store.file_uploads) has_file,
        ) in
    subst
      (λ (x : RunRow × (Mapping × StoredFile)).
        (lookup id store.import_runs ≡ some x.0)
        × (lookup x.0.file_upload_id store.file_uploads ≡ some x.1.1)
        × (validate py x.1.0 ≡ ok []))
      (ok-injective r2) (early.0, early.1, accepted-ok (validate py l.1.0) valid)

finished-Told :
    (py : Python) (read : String → String → Reading) (id : ℕ) (store after : Store) (row : RunRow)
    (file : StoredFile)
    → lookup id store.import_runs ≡ some row
    → lookup row.file_upload_id store.file_uploads ≡ some file
    → (context : RunContext) (l : Loop) {report : ImportReport} → l.progress.counters.read ≡ 0
    → (r : Result Exc Loop × Database)
    → import_batches py context (read file.storage_path file.format) l ≡ r
    → finish id store r ≡ (ok report, after)
    → Told py read id store after report
unfolding to_report
finished-Told py read id store after row file has_row has_file context l zero (err e, db) loops
      ran =
    cc ran
finished-Told py read id store after row file has_row has_file context l zero (ok last, db) loops
      ran =
    let returned = ok-injective (ap (λ r. r.0) ran) in
    record {
      row = row;
      has_row = has_row;
      file = file;
      found = has_file;
      all_read =
          ap (λ r. r.records_read) (sym returned)
          ∙ omega (
            arith,
            (import_batches-read py context (read file.storage_path file.format) l loops).0,
            zero,
          );
      whole = (import_batches-read py context (read file.storage_path file.format) l loops).2;
      status = run_status last.progress.counters;
      saved =
          ap (λ r. lookup id r.1.import_runs) (sym ran)
          ∙ lookup-save_report id (to_report last.progress.counters last.all_issues)
              (run_status last.progress.counters) store.import_runs has_row
          ∙ ap (λ r. some (reported r (run_status last.progress.counters) row)) returned;
      partial =
          subst (λ r. (run_status last.progress.counters ≡ "partial") ↔ (1 ≤ r.records_rejected))
            returned (status_partial last.progress.counters);
    }

-- An import that returns a report has read every record of the run's file, to its end, and has saved the
-- report's numbers in the run's row with a status, `partial` exactly if records were rejected.
pub run_import-Told :
    (py : Python) (read : String → String → Reading) (next_id id : ℕ) (store after : Store)
    {report : ImportReport}
    → run_import py read next_id id store ≡ (ok report, after)
    → Told py read id store after report
unfolding run_import prepared to_report
run_import-Told py read next_id id store after ran = elim (Result-cases (prepared py id store)) [
  | inr (e, failed) ↦ absurd (cc (rw (failed, run_import) at ran))
  | inl ((row, (mapping, file)), ready) ↦
      let (has_row, has_file, valid) = prepared-ready py id store ready in
      let context : RunContext = record {
        mapping = mapping;
        data_source_id = row.data_source_id;
        import_run_id = id;
      } in
      finished-Told py read id store after row file has_row has_file context
        (first_loop store.database next_id) refl
        (import_batches py context (read file.storage_path file.format)
          (first_loop store.database next_id))
        refl (rw (ready, run_import) at ran)
]
