-- ===== src/Storage/Records.antt =====
-- Raw records and issues, in src/agentlen/infrastructure/persistence/repositories/sql.py, and
-- `content_hash` of src/agentlen/domain/services/deduplicator.py.
use agent_len.Base.{ℕ, String, Option, List, [], ◌∷◌, ◌++◌, nat_eq, pair_eq}
use agent_len.Base.Dict.{Dict, insert}
use agent_len.Base.{Bool, true, false, ◌&&◌, ok, err, ◌>>=◌, if◌then◌else◌}
use agent_len.Engine.Operators.{Run}
use agent_len.Json.{Value, Items, Members, datetime, arr, obj, nil, item, end, member, Object}
use agent_len.Mapping.{ImportIssue}
use agent_len.Python.{Python, type_error}
use agent_len.Storage.Table.{Stored, Table}
use agent_len.Storage.Slices.{insert_many}

-- `(import_run_id, line_number)`
abbrev pub LineKey : Type 0
LineKey = ℕ × ℕ

pub record RawColumns : Type 0 where
  pub payload : Object
  pub content_hash : String

abbrev pub RawRecordTable : Type 0
RawRecordTable = Table LineKey RawColumns

abbrev pub raw_record_width : ℕ
raw_record_width = 5

-- `{r.line_number: r.id for r in returned}`
abbrev pub by_line : Dict ℕ ℕ → List (Stored LineKey RawColumns) → Dict ℕ ℕ
by_line d [] = d
by_line d (r ∷ rows) = by_line (insert r.key.1 r.id d) rows

-- Whether JSON can hold a value. It has no dates, which a Parquet file may bring.
abbrev mutual
  pub is_json : Value → Bool
  is_json (datetime t z) = false
  is_json (arr vs) = are_json vs
  is_json (obj ms) = have_json ms
  is_json v = true

  pub are_json : Items → Bool
  are_json nil = true
  are_json (item v vs) = is_json v && are_json vs

  pub have_json : Members → Bool
  have_json end = true
  have_json (member k v ms) = is_json v && have_json ms

abbrev pub payload_is_json : Object → Bool
payload_is_json [] = true
payload_is_json ((k, v) ∷ payload) = is_json v && payload_is_json payload

module _ (py : Python) where
  -- `Deduplicator.content_hash`. What JSON can hold, `dumps` writes without its `default`.
  unfoldable pub content_hash : Object → Run String
  content_hash payload =
      if payload_is_json payload then ok (py.sha256 (py.dumps payload)) else err type_error

  unfoldable pub raw_values : ℕ → List (ℕ × Object) → Run (List (LineKey × RawColumns))
  unfolding content_hash
  raw_values run [] = ok []
  raw_values run ((line, payload) ∷ records) = do
    hash ← content_hash payload
    rest ← raw_values run records
    ok (((run, line), record { payload = payload; content_hash = hash }) ∷ rest)

  -- `add_many`
  unfoldable pub add_raw_records :
      ℕ → List (ℕ × Object) → RawRecordTable → Run (Dict ℕ ℕ × RawRecordTable)
  unfolding insert_many raw_values
  add_raw_records run records t = do
    rows ← raw_values run records
    let done = insert_many raw_record_width rows t
    ok (by_line [] done.0, done.1)

pub record IssueRow : Type 0 where
  pub import_run_id : ℕ
  pub raw_record_id : Option ℕ
  pub issue : ImportIssue

-- `SqlAlchemyImportIssueRepository.add_many`: a table without a natural key, in order.
abbrev pub issue_rows : ℕ → List (ImportIssue × Option ℕ) → List IssueRow
issue_rows run [] = []
issue_rows run ((issue, raw) ∷ issues) =
    record { import_run_id = run; raw_record_id = raw; issue = issue } ∷ issue_rows run issues

unfoldable pub add_issues : ℕ → List (ImportIssue × Option ℕ) → List IssueRow → List IssueRow
add_issues run issues rows = rows ++ issue_rows run issues
