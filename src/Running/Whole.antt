-- ===== src/Running/Whole.antt =====
-- How a batch and an import of src/agentlen/application/use_cases/run_import.py end, and that valid tables
-- stay valid.
use agent_len.Base.{ℕ, suc, ◌+◌, String, ◌≡◌, refl, true}
use agent_len.Base.{List, [], ◌∷◌, ◌++◌, ok}
use agent_len.Base.{arith, All, nat_eq, length}
use agent_len.Base.{inl, inr}
use agent_len.Base.Dict.{Dict}
use agent_len.Base.{string_eq, pair_eq, list_eq, int_eq}
use agent_len.Json.{Members, entries}
use agent_len.Mapping.{Mapping, ImportIssue}
use agent_len.Base.{err, Result, Result-cases, Bool-cases, ap, ◌⊎◌}
use agent_len.Python.{Python, Exc, type_error, database_error}
use agent_len.Normalizer.{NormalizationResult}
use agent_len.Storage.Table.{IsValid, insert_values-IsValid}
use agent_len.Storage.Slices.{insert_many, insert_many-insert_values}
use agent_len.Storage.Records.{
  add_raw_records, raw_values, content_hash, payload_is_json, LineKey, RawColumns, RawRecordTable,
  by_line,
}
use agent_len.Storage.Referentials.{Referentials}
use agent_len.Storage.Referentials.Total.{ValidReferentials}
use agent_len.Running.References.{Resolution}
use agent_len.Running.References.{execute, kind_eq}
use agent_len.Running.Rows.{normalize_batch, references_of}
use agent_len.Running.Batch.{Database, RunContext, Progress, Prepared, numbered, import_batch}
use agent_len.Running.Batch.{prepare_batch, rows_of_batch, finish_batch}
use agent_len.Running.Batch.{raw_of_batch}
use agent_len.Running.Counters.{ImportReport}
use agent_len.Running.Execute.{
  Reading, file_end, broken, batch_then, ImportFailure, failed, Loop, import_batches, first_loop,
  Store, RunRow, StoredFile, run_import,
}
use agent_len.Running.Execute.{finish, prepared}
use agent_len.Running.Apart.{batch_rows-Apart}
use agent_len.Running.Totals.{ValidDatabase, resolve_all-total, insert_rows-total}

-- What JSON can hold, of the records of a batch.
abbrev pub AreJson : List Members → Type 0
AreJson = All (λ raw. payload_is_json (entries raw) ≡ true)

module _ (py : Python) (context : RunContext) where
  prepare_batch-total :
      (line : ℕ) (batch : List Members) (p : Progress) {normalised : List (ℕ × NormalizationResult)}
      {last : ℕ}
      → normalize_batch py context.mapping context.data_source_id line p.next_id batch
        ≡ ok (normalised, last)
      → ValidReferentials p.database.referentials
      → (references : Resolution Referentials) × (prepare_batch py context line batch p
          ≡ ok (record { normalised = normalised; next_id = last; references = references }))
        × ValidReferentials references.state
  unfolding prepare_batch execute
  prepare_batch-total line batch p {normalised} normalizes h =
      let (references, ran, valid) =
        resolve_all-total (references_of normalised)
          (record { resolved = []; cache = p.cache; state = p.database.referentials }) h in
      (references, rw (normalizes, ran) refl, valid)

  raw_values-total :
      (line : ℕ) (batch : List Members)
      → ((rows : List (LineKey × RawColumns)) × (raw_values py context.import_run_id
              (numbered line batch)
            ≡ ok rows))
        ⊎ ((raw_values py context.import_run_id (numbered line batch) ≡ err type_error)
            × ¬ AreJson batch)
  unfolding raw_values content_hash
  raw_values-total line [] = inl ([], refl)
  raw_values-total line (raw ∷ batch) = elim (Bool-cases (payload_is_json (entries raw))) [
    | inr e ↦ inr (rw (e, content_hash) refl, λ all. cc (all.0, e))
    | inl e ↦ elim (raw_values-total (suc line) batch) [
      | inr (raised, never) ↦ inr (rw (e, content_hash, raised) refl, λ all. never all.1)
      | inl (rows, ran) ↦ inl (first line raw ∷ rows, rw (e, content_hash, ran) refl)
    ]
  ]
    where
      first : ℕ → Members → LineKey × RawColumns
      first line raw = (
        (context.import_run_id, line),
        record { payload = entries raw; content_hash = py.sha256 (py.dumps (entries raw)) },
      )

  raw_of_batch-total :
      (line : ℕ) (batch : List Members) (p : Progress)
      → IsValid p.database.raw_records
      → ((raw : Dict ℕ ℕ × RawRecordTable) × (raw_of_batch py context line batch p ≡ ok raw)
          × IsValid raw.1)
        ⊎ ((raw_of_batch py context line batch p ≡ err type_error) × ¬ AreJson batch)
  unfolding add_raw_records
  raw_of_batch-total line batch p h = elim (raw_values-total line batch) [
    | inr (raised, never) ↦ inr (rw raised refl, never)
    | inl (rows, ran) ↦
        let after = insert_many 5 rows p.database.raw_records in
        inl (
          (by_line [] after.0, after.1),
          rw ran refl,
          rw (insert_many-insert_values 5 rows p.database.raw_records (omega arith) (omega arith))
              (insert_values-IsValid rows p.database.raw_records h),
        )
  ]

  -- Why a batch raises: a record that JSON cannot hold, one that the normalizer raises on, or a row
  -- that the database refuses.
  abbrev pub BatchCause : List Members → Exc → Type 0
  BatchCause batch e =
      ((e ≡ type_error) × ¬ AreJson batch)
      ⊎ (((line next : ℕ) × (normalize_batch py context.mapping context.data_source_id line next
                batch
              ≡ err e))
          ⊎ (e ≡ database_error))

  -- A batch is stored in valid tables, which stay valid, or it raises for one of these causes.
  import_batch-ValidDatabase :
      (line : ℕ) (batch : List Members) (p : Progress)
      → ValidDatabase p.database
      → ((next : Progress × List ImportIssue) × (import_batch py context line batch p ≡ ok next)
          × ValidDatabase next.0.database)
        ⊎ ((e : Exc) × (import_batch py context line batch p ≡ err e) × BatchCause batch e)
  unfolding import_batch
  import_batch-ValidDatabase line batch p h = elim (raw_of_batch-total line batch p h.raw_records) [
    | inr (raised, never) ↦ inr (type_error, rw raised refl, inl (refl, never))
    | inl (raw, stores, kept) ↦
        elim (Result-cases
          (normalize_batch py context.mapping context.data_source_id line p.next_id batch)) [
            | inr (e, raises) ↦
                inr
                  (e, rw (stores, prepare_batch, raises) refl, inr (inl (line, p.next_id, raises)))
            | inl ((normalised, last), normalizes) ↦
                normalized line batch p h raw stores kept normalised last normalizes
          ]
  ]
    where
      normalized :
          (line : ℕ) (batch : List Members) (p : Progress)
          → ValidDatabase p.database
          → (raw : Dict ℕ ℕ × RawRecordTable) → raw_of_batch py context line batch p ≡ ok raw
          → IsValid raw.1
          → (normalised : List (ℕ × NormalizationResult)) (last : ℕ)
          → normalize_batch py context.mapping context.data_source_id line p.next_id batch
            ≡ ok (normalised, last)
          → ((next : Progress × List ImportIssue) × (import_batch py context line batch p ≡ ok next)
              × ValidDatabase next.0.database)
            ⊎ ((e : Exc) × (import_batch py context line batch p ≡ err e) × BatchCause batch e)
      normalized line batch p h raw stores kept normalised last normalizes =
          let (references, prepares, valid) =
            prepare_batch-total line batch p normalizes h.referentials in
          let made : Prepared = record {
            normalised = normalised;
            next_id = last;
            references = references;
          } in
          let rows = rows_of_batch context raw.0 made in
          let apart =
            batch_rows-Apart references.resolved context.import_run_id raw.0 py context.mapping
              context.data_source_id line p.next_id batch normalised last normalizes in
          elim (insert_rows-total rows raw.1 references.state p.database p.next_id last apart h) [
            | inr refused ↦
                inr (database_error, rw (stores, prepares, refused) refl, inr (inr refl))
            | inl (done, inserts, after) ↦ inl (
              finish_batch context p (length batch) raw made rows done,
              rw (stores, prepares, inserts) refl,
              record {
                raw_records = kept;
                sessions = after.sessions;
                model_calls = after.models;
                tool_calls = after.tools;
                referentials = valid;
              },
            )
          ]

  -- Why the loop over the file's batches ends before its end.
  abbrev pub Cause : Reading → Exc → Type 0
  Cause file_end e = ⊥
  Cause (broken x) e = e ≡ x
  Cause (batch_then batch batches) e = BatchCause batch e ⊎ Cause batches e

  -- What the loop gives, and that its tables are valid.
  abbrev Ended : Reading → Result Exc Loop × Database → Type 0
  Ended batches r =
      ValidDatabase r.1
      × (((last : Loop) × (r.0 ≡ ok last)) ⊎ ((e : Exc) × (r.0 ≡ err e) × Cause batches e))

  import_batches-Ended :
      (batches : Reading) (l : Loop)
      → ValidDatabase l.progress.database
      → Ended batches (import_batches py context batches l)
  unfolding import_batches
  import_batches-Ended file_end l h = (h, inl (l, refl))
  import_batches-Ended (broken e) l h = (h, inr (e, refl, refl))
  import_batches-Ended (batch_then batch batches) l h =
      elim (import_batch-ValidDatabase (suc l.line_number) batch l.progress h) [
        | inr (e, raised, cause) ↦ rw (raised, import_batches) (h, inr (e, refl, inl cause))
        | inl (next, ran, valid) ↦
            let (kept, ending) =
              import_batches-Ended batches
                (record {
                  line_number = l.line_number + length batch;
                  all_issues = l.all_issues ++ next.1;
                  progress = next.0;
                })
                valid in
            rw (ran, import_batches)
              (
                kept,
                elim ending [
                  | inl all ↦ inl all
                  | inr (e, raised, cause) ↦ inr (e, raised, inr cause)
                ],
              )
      ]

-- The exception of a result, if it has one.
abbrev failure_of : {A : Type 0} → Exc → Result Exc A → Exc
failure_of e (ok a) = e
failure_of e (err x) = x

-- How an import ends: with a report, or with an exception that has a cause.
abbrev pub Explained : Python → RunContext → Reading → Result ImportFailure ImportReport → Type 0
Explained py context batches result =
    ((report : ImportReport) × (result ≡ ok report))
    ⊎ ((e : Exc) × (result ≡ err (failed e)) × Cause py context batches e)

finish-Explained :
    (py : Python) (context : RunContext) (id : ℕ) (store : Store) (batches : Reading)
    (r : Result Exc Loop × Database)
    → Ended py context batches r
    → ValidDatabase (finish id store r).1.database
      × Explained py context batches (finish id store r).0
finish-Explained py context id store batches (ok last, db) (valid, ending) = (valid, inl (_, refl))
finish-Explained py context id store batches (err e, db) (valid, ending) = (
  valid,
  elim ending [
    | inl (last, is) ↦ cc is
    | inr (x, is, cause) ↦ inr (x, ap (λ r. err (failed (failure_of e r))) is, cause)
  ],
)

-- A run whose file and accepted mapping are there leaves valid tables valid, however it ends. It
-- returns a report, or it fails because the reader raises, because a record raises in the
-- normalizer or is not what JSON can hold, or because the database refuses a row: the bookkeeping
-- of ids and outcomes raises nothing.
pub run_import-ValidDatabase :
    (py : Python) (read : String → String → Reading) (next_id id : ℕ) (store : Store) (row : RunRow)
    (mapping : Mapping) (file : StoredFile)
    → prepared py id store ≡ ok (row, (mapping, file))
    → ValidDatabase store.database
    → let context : RunContext = record {
      mapping = mapping;
      data_source_id = row.data_source_id;
      import_run_id = id;
    } in
      let ended = run_import py read next_id id store in
      ValidDatabase ended.1.database
      × Explained py context (read file.storage_path file.format) ended.0
unfolding run_import
run_import-ValidDatabase py read next_id id store row mapping file ready h =
    let context : RunContext = record {
      mapping = mapping;
      data_source_id = row.data_source_id;
      import_run_id = id;
    } in
    let batches = read file.storage_path file.format in
    rw (ready, run_import)
      (finish-Explained py context id store batches
        (import_batches py context batches (first_loop store.database next_id))
        (import_batches-Ended py context batches (first_loop store.database next_id) h))
