-- ===== src/Running/Bounded.antt =====
-- No more records are rejected than read, in src/agentlen/application/use_cases/run_import.py: the lines that
-- are counted are different lines of the batch.
use mathlib.Core.Path.{subst}
use agent_len.Base.{ℕ, suc, ◌+◌, ◌≤◌, String, ◌≡◌, refl, ap, sym}
use agent_len.Base.{Option, none, some, List, [], ◌∷◌, ◌++◌, ok, err, >>=-eq-ok, Result}
use agent_len.Base.{ok-injective, arith, All, All-append, All-map, nat_eq}
use agent_len.Base.{inl, inr, Bool-cases, Option-cases, Result-cases, length, ltb}
use agent_len.Base.{string_eq, pair_eq, list_eq}
use agent_len.Base.Dict.{Dict, lookup}
use agent_len.Json.{Members, obj}
use agent_len.Mapping.{Mapping, ImportIssue, Severity, is_rejected, duplicate, warning, rejected}
use agent_len.Python.{Python, Exc}
use agent_len.Normalizer.{NormalizationResult, normalize}
use agent_len.Normalizer.Entities.{Session, ModelCall, ToolCall, agent, model, tool}
use agent_len.Normalizer.Numbered.{normalize-Supplied}
use agent_len.Engine.Placed.{OnLine}
use agent_len.Storage.Outcome.{InsertOutcome, duplicate_count}
use agent_len.Storage.Referentials.{resolve}
use agent_len.Running.References.{CacheKey, kind_eq, execute}
use agent_len.Running.Counters.{Counters, ImportReport, fresh, rejected_lines, with_line, to_report}
use agent_len.Running.Rows.{session_rows, model_rows, tool_rows, record_rows, batch_rows}
use agent_len.Running.Rows.{
  normalize_batch, found_issues, references_of, reference_key, resolved_id,
}
use agent_len.Running.Batch.{Database, RunContext, Progress, Prepared, import_batch, prepare_batch}
use agent_len.Running.Batch.{count_batch, issue_if, rows_of_batch}
use agent_len.Running.Execute.{
  Reading, file_end, broken, batch_then, Loop, import_batches, first_loop, Store, run_import,
  prepared, finish,
}
use agent_len.Running.Lines.{Within, length-Within, fresh-Distinct, fresh-All}
use agent_len.Running.Counted.{import_batch-Ran, import_batch-read}

-- An issue on one of the lines, or on none.
abbrev Inside : ℕ → ℕ → Option ℕ → Type 0
Inside low high none = Unit
Inside low high (some n) = Within low high n

abbrev AllInside : ℕ → ℕ → List ImportIssue → Type 0
AllInside low high issues = All (λ i. Inside low high i.line_number) issues

with_line-Within :
    (low high : ℕ) (line : Option ℕ) (lines : List ℕ)
    → Inside low high line
    → All (Within low high) lines
    → All (Within low high) (with_line line lines)
with_line-Within low high none lines i h = h
with_line-Within low high (some n) lines i h = (i, h)

rejected_lines-Within :
    (low high : ℕ) (issues : List ImportIssue)
    → AllInside low high issues
    → All (Within low high) (rejected_lines issues)
unfolding rejected_lines
rejected_lines-Within low high [] h = tt
rejected_lines-Within low high (i ∷ issues) h = elim (Bool-cases (is_rejected i.severity)) [
  | inl y ↦ rw y (
      with_line-Within low high i.line_number (rejected_lines issues) h.0
        (rejected_lines-Within low high issues h.1))
  | inr n ↦ rw n (rejected_lines-Within low high issues h.1)
]

AllInside-append :
    (low high : ℕ) (a b : List ImportIssue)
    → AllInside low high a
    → AllInside low high b
    → AllInside low high (a ++ b)
AllInside-append low high a b h k = All-append (λ i. Inside low high i.line_number) a b h k

AllInside-widen :
    (low high above : ℕ) (issues : List ImportIssue)
    → high ≤ above
    → AllInside (suc low) high issues
    → AllInside low above issues
AllInside-widen low high above issues le h =
    All-map _ (λ i. Inside low above i.line_number) issues (λ i. inside i.line_number) h
  where
    inside : (o : Option ℕ) → Inside (suc low) high o → Inside low above o
    inside none k = tt
    inside (some n) k = (omega (arith, k.0), omega (arith, k.1, le))

module _ (low high line : ℕ) (is_in : Within low high line) where
  placed-AllInside :
      (issues : List ImportIssue) → OnLine (some line) issues → AllInside low high issues
  placed-AllInside [] h = tt
  placed-AllInside (i ∷ issues) h =
      (subst (Inside low high) (sym h.0) is_in, placed-AllInside issues h.1)

  resolved_id-AllInside :
      (resolved : Dict CacheKey ℕ) (key : Option CacheKey) (severity : Severity)
      → AllInside low high (resolved_id resolved key line severity).1
  unfolding resolved_id
  resolved_id-AllInside resolved none severity = tt
  resolved_id-AllInside resolved (some key) severity = elim (Option-cases (lookup key resolved)) [
    | inl missing ↦ rw (missing, resolved_id) (is_in, tt)
    | inr (id, is) ↦ rw (is, resolved_id) tt
  ]

  module _ (resolved : Dict CacheKey ℕ) (run raw : ℕ) where
    session_rows-AllInside :
        (xs : List Session) → AllInside low high (session_rows resolved run raw line xs).1
    unfolding session_rows
    session_rows-AllInside [] = tt
    session_rows-AllInside (x ∷ xs) =
        AllInside-append low high _ _
          (resolved_id-AllInside resolved (reference_key agent x.agent_name none) warning)
          (session_rows-AllInside xs)

    model_rows-AllInside :
        (xs : List ModelCall) → AllInside low high (model_rows resolved run raw line xs).1
    unfolding model_rows
    model_rows-AllInside [] = tt
    model_rows-AllInside (x ∷ xs) =
        AllInside-append low high _ _
          (resolved_id-AllInside resolved (reference_key model x.model_name x.provider_name)
            warning)
          (model_rows-AllInside xs)

    tool_rows-AllInside :
        (xs : List ToolCall) → AllInside low high (tool_rows resolved run raw line xs).1
    unfolding tool_rows
    tool_rows-AllInside [] = tt
    tool_rows-AllInside (x ∷ xs) =
        AllInside-append low high _ _
          (resolved_id-AllInside resolved (reference_key tool (some x.tool_name) none) rejected)
          (tool_rows-AllInside xs)

  record_rows-AllInside :
      (resolved : Dict CacheKey ℕ) (run : ℕ) (raw_ids : Dict ℕ ℕ) (result : NormalizationResult)
      → AllInside low high (record_rows resolved run raw_ids (line, result)).issues
  unfolding record_rows
  record_rows-AllInside resolved run raw_ids result = elim (Option-cases (lookup line raw_ids)) [
    | inl gone ↦ rw (gone, record_rows) tt
    | inr (raw, is) ↦
        rw (is, record_rows)
          (AllInside-append low high _ _
            (AllInside-append low high _ _ (session_rows-AllInside resolved run raw result.sessions)
              (model_rows-AllInside resolved run raw result.model_calls))
            (tool_rows-AllInside resolved run raw result.tool_calls))
  ]

module _ (py : Python) (mapping : Mapping) (source : ℕ) (resolved : Dict CacheKey ℕ) (run : ℕ)
    (raw_ids : Dict ℕ ℕ) where
  abbrev BatchInside : ℕ → ℕ → List (ℕ × NormalizationResult) → Type 0
  BatchInside low high normalised =
      AllInside low high (found_issues normalised)
      × AllInside low high (batch_rows resolved run raw_ids normalised).issues

  batch-AllInside :
      (line next : ℕ) (batch : List Members) (normalised : List (ℕ × NormalizationResult))
      (last : ℕ)
      → normalize_batch py mapping source line next batch ≡ ok (normalised, last)
      → BatchInside line (line + length batch) normalised
  unfolding normalize_batch batch_rows
  batch-AllInside line next [] normalised last ran =
      subst (λ (r : List (ℕ × NormalizationResult) × ℕ). BatchInside line (line + 0) r.0)
        (ok-injective ran) (tt, tt)
  batch-AllInside line next (raw ∷ batch) normalised last ran =
      let ((result, after), one, r1) =
        >>=-eq-ok (normalize py mapping (obj raw) source (some line) next) _ ran in
      let ((rest, end_id), more, r2) =
        >>=-eq-ok (normalize_batch py mapping source (suc line) after batch) _ r1 in
      let high = line + suc (length batch) in
      let is_in : Within line high line = (omega arith, omega arith) in
      let later = batch-AllInside (suc line) after batch rest end_id more in
      let fits : suc line + length batch ≤ high = omega arith in
      subst (λ (r : List (ℕ × NormalizationResult) × ℕ). BatchInside line high r.0)
        (ok-injective r2)
        (
          AllInside-append line high _ _
              (placed-AllInside line high line is_in result.issues
                (normalize-Supplied py mapping (obj raw) source (some line) next one).1)
              (AllInside-widen line (suc line + length batch) high _ fits later.0),
          AllInside-append line high _ _
              (record_rows-AllInside line high line is_in resolved run raw_ids result)
              (AllInside-widen line (suc line + length batch) high _ fits later.1),
        )

issue_if-AllInside :
    (low high n : ℕ) (severity : Severity) (code : String)
    → AllInside low high (issue_if n severity code)
issue_if-AllInside low high n severity code = elim (Bool-cases (ltb 0 n)) [
  | inl y ↦ rw (y, issue_if) (tt, tt)
  | inr o ↦ rw (o, issue_if) tt
]

-- The rejections that a batch adds are at most its records.
count_batch-rejected :
    (low read : ℕ) (found : List ImportIssue) (sessions models tools : InsertOutcome)
    (existing : List ℕ) (c : Counters)
    → AllInside low (low + read) found
    → (count_batch read found sessions models tools existing c).0.rejected ≤ c.rejected + read
unfolding count_batch
count_batch-rejected low read found sessions models tools existing c h =
    let duplicates =
      length (fresh existing c.duplicate_sessions)
      + duplicate_count models
      + duplicate_count tools in
    let unlinked = length models.unlinked + length tools.unlinked in
    let issues =
      found
      ++ issue_if duplicates duplicate "ALREADY_IMPORTED"
      ++ issue_if unlinked warning "PARENT_SESSION_MISSING" in
    let all : AllInside low (low + read) issues =
      AllInside-append low (low + read) _ _
        (AllInside-append low (low + read) found _ h
          (issue_if-AllInside low (low + read) duplicates duplicate "ALREADY_IMPORTED"))
        (issue_if-AllInside low (low + read) unlinked warning "PARENT_SESSION_MISSING") in
    omega (
      arith,
      length-Within read low (fresh (rejected_lines issues) [])
          (fresh-Distinct (rejected_lines issues) [])
          (fresh-All (Within low (low + read)) (rejected_lines issues) []
            (rejected_lines-Within low (low + read) issues all)),
    )

module _ (py : Python) (context : RunContext) where
  -- The issues of a batch that is prepared are on its lines.
  prepare_batch-AllInside :
      (line : ℕ) (batch : List Members) (p : Progress) {made : Prepared}
      → prepare_batch py context line batch p ≡ ok made
      → (raw_ids : Dict ℕ ℕ)
      → AllInside line
          (line + length batch)
          (found_issues made.normalised ++ (rows_of_batch context raw_ids made).issues)
  unfolding prepare_batch
  prepare_batch-AllInside line batch p {made} ran raw_ids =
      let ((normalised, last), normalizes, r1) =
        >>=-eq-ok (normalize_batch py context.mapping context.data_source_id line p.next_id batch) _
          ran in
      let (references, resolves, r2) =
        >>=-eq-ok (execute resolve (references_of normalised) p.cache p.database.referentials) _
          r1 in
      let inside =
        batch-AllInside py context.mapping context.data_source_id references.resolved
          context.import_run_id raw_ids line p.next_id batch normalised last normalizes in
      subst
        (λ (m : Prepared).
          AllInside line (line + length batch)
            (found_issues m.normalised ++ (rows_of_batch context raw_ids m).issues))
        (ok-injective r2) (AllInside-append line (line + length batch) _ _ inside.0 inside.1)

  import_batch-rejected :
      (line : ℕ) (batch : List Members) (p : Progress) {next : Progress × List ImportIssue}
      → import_batch py context line batch p ≡ ok next
      → next.0.counters.rejected ≤ p.counters.rejected + length batch
  import_batch-rejected line batch p ran =
      let r = import_batch-Ran py context line batch p ran in
      subst
        (λ (n : Progress × List ImportIssue).
          n.0.counters.rejected ≤ p.counters.rejected + length batch)
        (sym r.finished)
        (count_batch-rejected line (length batch) _ r.written.sessions.0 r.written.models.0
          r.written.tools.0 r.written.existing p.counters
          (prepare_batch-AllInside line batch p r.prepares r.raw.0))

  import_batches-rejected :
      (batches : Reading) (l : Loop) {last : Loop} {db : Database}
      → l.progress.counters.rejected ≤ l.progress.counters.read
      → import_batches py context batches l ≡ (ok last, db)
      → last.progress.counters.rejected ≤ last.progress.counters.read
  unfolding import_batches
  import_batches-rejected (broken e) l le ran = cc ran
  import_batches-rejected file_end l le ran =
      subst (λ (d : Loop). d.progress.counters.rejected ≤ d.progress.counters.read)
        (ok-injective (ap (λ r. r.0) ran)) le
  import_batches-rejected (batch_then batch batches) l le ran =
      elim (Result-cases (import_batch py context (suc l.line_number) batch l.progress)) [
        | inr (e, failed) ↦ absurd (cc (rw (failed, import_batches) at ran))
        | inl (next, imported) ↦
            import_batches-rejected batches
              (record {
                line_number = l.line_number + length batch;
                all_issues = l.all_issues ++ next.1;
                progress = next.0;
              })
              (omega (
                arith,
                le,
                import_batch-read py context (suc l.line_number) batch l.progress imported,
                import_batch-rejected (suc l.line_number) batch l.progress imported,
              ))
              (rw (imported, import_batches) at ran)
      ]

  finish-rejected :
      (id : ℕ) (store after : Store) (batches : Reading) (l : Loop) {report : ImportReport}
      → l.progress.counters.rejected ≤ l.progress.counters.read
      → (r : Result Exc Loop × Database) → import_batches py context batches l ≡ r
      → finish id store r ≡ (ok report, after)
      → report.records_rejected ≤ report.records_read
  unfolding to_report
  finish-rejected id store after batches l le (err e, db) loops ran = cc ran
  finish-rejected id store after batches l le (ok last, db) loops ran =
      subst (λ (r : ImportReport). r.records_rejected ≤ r.records_read)
        (ok-injective (ap (λ r. r.0) ran)) (import_batches-rejected batches l le loops)

-- No report counts more records rejected than read.
pub run_import-rejected :
    (py : Python) (read : String → String → Reading) (next_id id : ℕ) (store after : Store)
    {report : ImportReport}
    → run_import py read next_id id store ≡ (ok report, after)
    → report.records_rejected ≤ report.records_read
unfolding run_import
run_import-rejected py read next_id id store after ran =
    elim (Result-cases (prepared py id store)) [
      | inr (e, failed) ↦ absurd (cc (rw (failed, run_import) at ran))
      | inl ((row, (mapping, file)), ready) ↦
          let context : RunContext = record {
            mapping = mapping;
            data_source_id = row.data_source_id;
            import_run_id = id;
          } in
          finish-rejected py context id store after (read file.storage_path file.format)
            (first_loop store.database next_id) (omega arith)
            (import_batches py context (read file.storage_path file.format)
              (first_loop store.database next_id))
            refl (rw (ready, run_import) at ran)
    ]
