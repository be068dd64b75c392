-- ===== src/Engine.antt =====
-- src/agentlen/domain/services/transformation_engine.py: a mapping applied to one raw record.
pub mod Operators
pub mod Coerce
pub mod Rejection
pub mod Placed
pub mod Content
pub mod Rows
use agent_len.Base.{
  ℕ, suc, String, ◌<>◌, Bool, true, false, not, ◌&&◌, Option, none, some, List, [],
}
use agent_len.Base.{◌∷◌, ◌++◌, Result, ok, err, ◌>>=◌, string_eq, if◌then◌else◌}
use agent_len.Base.Dict.{Dict, insert}
use agent_len.Json.{Value, null, Object, is_null}
use agent_len.JsonPath.{JsonPath, PathError}
use agent_len.JsonPath.Resolve.{iterate_path, source_path, resolve, resolve_rows}
use agent_len.Mapping.{FieldRule, EntityMapping, Mapping, ImportIssue, Severity, rejected, warning}
use agent_len.Mapping.{field_place, truthy}
use agent_len.Python.{Python, Extractor, Exc, operator_failed, unsupported_path}
use Operators.{Run, Lookup, apply_operator}
use Coerce.{coerce_target_type}

-- A transformed entity: `{"entity", "data", "source_index"}`.
pub record Entry : Type 0 where
  pub entity : String
  pub content : Object
  pub source_index : ℕ

-- The `code` of the issue that an exception becomes in `_apply_field`.
abbrev pub issue_code : Exc → String
issue_code (operator_failed code) = code
issue_code (unsupported_path e) = "MAPPING_UNSUPPORTED_PATH"
issue_code _ = "OPERATOR_FAILED"

abbrev pub severity_of : Bool → Severity
severity_of required = if required then rejected else warning

abbrev pub raise_path : {A : Type 0} → Result PathError A → Run A
raise_path (ok a) = ok a
raise_path (err e) = err (unsupported_path e)

-- The closure `lookup` of `_apply_entity`.
unfoldable pub row_lookup : Value → Option JsonPath → Lookup
unfolding source_path resolve
row_lookup row prefix path = do
  segments ← raise_path (source_path path prefix)
  ok (resolve row segments)

abbrev pub issue : Severity → String → String → Option ℕ → ImportIssue
issue severity code place line = record {
  severity = severity;
  code = code;
  field_path = some place;
  line_number = line;
}

-- The state of the loop of `_apply_entity`.
pub record Build : Type 0 where
  pub content : Object
  pub issues : List ImportIssue
  pub rejected : Bool

abbrev pub start : Build
start = record { content = []; issues = []; rejected = false }

module _ (py : Python) (regex : Option Extractor) where
  -- The operators in order; the first that raises ends them.
  unfoldable pub run_operators : List Object → Value → Lookup → Run Value
  run_operators [] v look = ok v
  run_operators (op ∷ ops) v look = do
    w ← apply_operator py regex op v look
    run_operators ops w look

  abbrev failed : FieldRule → String → Option ℕ → Exc → Value × List ImportIssue
  failed rule place line e =
      (null, issue (severity_of rule.required) (issue_code e) place line ∷ [])

  abbrev operated : FieldRule → String → Option ℕ → Run Value → Value × List ImportIssue
  operated rule place line (ok v) = (v, [])
  operated rule place line (err e) = failed rule place line e

  abbrev looked_up : FieldRule → Lookup → String → Option ℕ → Run Value → Value × List ImportIssue
  looked_up rule look place line (ok v) =
      operated rule place line (run_operators rule.operators v look)
  looked_up rule look place line (err e) = failed rule (place <> ".source") line e

  unfoldable pub apply_field : FieldRule → Lookup → String → Option ℕ → Value × List ImportIssue
  apply_field rule look entity line =
      looked_up rule look (field_place entity rule.target) line (look rule.source)

  -- `value` is null: a required field rejects the entity, with a reason if none was given yet.
  abbrev absent : FieldRule → String → Option ℕ → List ImportIssue → Build → Build
  absent rule entity line [] b =
      if rule.required
      then record b {
        issues =
            b.issues
            ++ issue rejected "MISSING_REQUIRED_FIELD" (field_place entity rule.target) line ∷ [];
        rejected = true;
      }
      else b
  absent rule entity line (i ∷ more) b =
      let issues = b.issues ++ i ∷ more in
      if rule.required
      then record b { issues = issues; rejected = true }
      else record b { issues = issues }

  abbrev typed : FieldRule → String → Option ℕ → List ImportIssue → Option Value → Build → Build
  typed rule entity line found none b = record b {
    issues =
        (b.issues ++ found)
        ++ issue rejected "TYPE_MISMATCH" (field_place entity rule.target) line ∷ [];
    rejected = true;
  }
  typed rule entity line found (some v) b = record b {
    content = insert rule.target v b.content;
    issues = b.issues ++ found;
  }

  -- What the loop of `_apply_entity` does with the outcome of a field.
  unfoldable pub settle_field :
      String → Option ℕ → FieldRule → Value × List ImportIssue → Build → Build
  settle_field entity line rule (v, found) b =
      if is_null v
      then absent rule entity line found b
      else typed rule entity line found (coerce_target_type py entity rule.target v) b

  -- One round of the loop.
  unfoldable pub add_field : String → Lookup → Option ℕ → FieldRule → Build → Build
  unfolding settle_field
  add_field entity look line rule b =
      settle_field entity line rule (apply_field rule look entity line) b

  unfoldable pub add_fields : String → Lookup → Option ℕ → List FieldRule → Build → Build
  add_fields entity look line [] b = b
  add_fields entity look line (rule ∷ rules) b =
      add_fields entity look line rules (add_field entity look line rule b)

  unfoldable pub apply_entity :
      EntityMapping → Value → Option JsonPath → Option ℕ → Option Object × List ImportIssue
  apply_entity entity row prefix line =
      let built = add_fields entity.target (row_lookup row prefix) line entity.fields start in
      (if built.rejected then none else some built.content, built.issues)

  abbrev keep : String → ℕ → Option Object → List Entry
  keep target index none = []
  keep target index (some content) =
      record { entity = target; content = content; source_index = index } ∷ []

  -- `for source_index, row in enumerate(rows)`
  unfoldable pub apply_rows :
      EntityMapping → Option JsonPath → Option ℕ → ℕ → List Value → List Entry × List ImportIssue
  apply_rows entity prefix line index [] = ([], [])
  apply_rows entity prefix line index (row ∷ rows) =
      let done = apply_entity entity row prefix line in
      let rest = apply_rows entity prefix line (suc index) rows in
      (keep entity.target index done.0 ++ rest.0, done.1 ++ rest.1)

  abbrev iterate_place : EntityMapping → String
  iterate_place entity = "entities[target=" <> entity.target <> "].iterate"

  abbrev pub row_issues : EntityMapping → Option ℕ → List String → List ImportIssue
  row_issues entity line [] = []
  row_issues entity line (p ∷ problems) =
      issue rejected "ITERATE_NOT_A_LIST" (iterate_place entity) line ∷ []

  abbrev pub rows_of :
      Value
      → EntityMapping
      → Option ℕ
      → Result PathError JsonPath
      → List Value × Option JsonPath × List ImportIssue
  rows_of document entity line (err e) =
      ([], none, issue rejected "MAPPING_UNSUPPORTED_PATH" (iterate_place entity) line ∷ [])
  rows_of document entity line (ok prefix) =
      let reached = resolve_rows document prefix in
      (reached.0, some prefix, row_issues entity line reached.1)

  -- `_extract_rows`
  unfoldable pub extract_rows :
      Value → EntityMapping → String → Option ℕ → List Value × Option JsonPath × List ImportIssue
  extract_rows document entity iterate line = rows_of document entity line (iterate_path iterate)

  abbrev pub entity_rows :
      Value
      → EntityMapping
      → Option ℕ
      → Option String
      → List Value × Option JsonPath × List ImportIssue
  entity_rows document entity line none = (document ∷ [], none, [])
  entity_rows document entity line (some iterate) = extract_rows document entity iterate line

  unfoldable pub apply_mapping : EntityMapping → Value → Option ℕ → List Entry × List ImportIssue
  apply_mapping entity document line =
      let (rows, prefix, before) = entity_rows document entity line (truthy entity.iterate) in
      let applied = apply_rows entity prefix line 0 rows in (applied.0, before ++ applied.1)

  unfoldable pub apply_entities :
      List EntityMapping → Value → Option ℕ → List Entry × List ImportIssue
  apply_entities [] document line = ([], [])
  apply_entities (entity ∷ entities) document line =
      let first = apply_mapping entity document line in
      let rest = apply_entities entities document line in (first.0 ++ rest.0, first.1 ++ rest.1)

  -- `TransformationEngine.apply`
  unfoldable pub apply : Mapping → Value → Option ℕ → List Entry × List ImportIssue
  unfolding apply_entities apply_mapping extract_rows iterate_path resolve_rows apply_rows
      apply_entity add_fields row_lookup add_field apply_field run_operators coerce_target_type
      apply_operator
  apply mapping document line = apply_entities mapping.entities document line
