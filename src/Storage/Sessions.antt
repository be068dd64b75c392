-- ===== src/Storage/Sessions.antt =====
-- `SqlAlchemySessionRepository.add_many` and `_session_key` of
-- src/agentlen/infrastructure/persistence/repositories/sql.py, with the rows and the outcome of
-- src/agentlen/application/dto/persistence.py.
pub mod Settled
pub mod Repeated
use agent_len.Base.{ℕ, suc, ◌≡◌, refl, ap, ◌∙◌, sym, inl, inr, Bool, true, not}
use agent_len.Base.{◌&&◌, String, Option, none, some, List, [], ◌∷◌, ◌++◌, All, arith, length}
use agent_len.Base.{◌==◌, nat_eq, string_eq, pair_eq, if◌then◌else◌, Bool-cases, Option-cases}
use agent_len.Base.{ok, ok-injective, >>=-eq-ok, ◌>>=◌, require}
use agent_len.Base.Dict.{Dict, lookup, insert}
use agent_len.Json.{Value, str}
use agent_len.Base.{err, contains}
use agent_len.Python.{key_error, database_error, other_error}
use agent_len.Engine.Operators.{Run}
use agent_len.Normalizer.Entities.{Session, valid_outcomes}
use agent_len.Storage.Table.{Stored, Table, find, IsValid}
use agent_len.Storage.Candidates.{candidates, candidates-all, is_present, values}
use agent_len.Storage.Constraints.{
  Server, Referents, Constraints, text_column, timestamp_column, bigint_column, optional, in_check,
  nullable, admitted,
}
use mathlib.Core.Path.{subst}
use agent_len.Base.{map}
use agent_len.Storage.Outcome.{InsertOutcome, empty_outcome}
use agent_len.Storage.Reconcile.{Reconciled, reconcile}

pub record SessionRow : Type 0 where
  pub entity : Session
  pub import_run_id : ℕ
  pub raw_record_id : ℕ
  pub agent_id : Option ℕ
  pub repository_id : Option ℕ

-- The columns of a session that are not its key.
pub record SessionColumns : Type 0 where
  pub import_run_id : ℕ
  pub raw_record_id : ℕ
  pub agent_id : Option ℕ
  pub repository_id : Option ℕ
  pub started_at : Value
  pub ended_at : Value
  pub duration_ms : Value
  pub outcome : Value

abbrev pub SessionKey : Type 0
SessionKey = ℕ × String

abbrev pub SessionTable : Type 0
SessionTable = Table SessionKey SessionColumns

abbrev pub session_key : SessionRow → SessionKey
session_key row = (row.entity.data_source_id, row.entity.external_id)

abbrev pub session_columns : SessionRow → SessionColumns
session_columns row = record {
  import_run_id = row.import_run_id;
  raw_record_id = row.raw_record_id;
  agent_id = row.agent_id;
  repository_id = row.repository_id;
  started_at = row.entity.started_at;
  ended_at = row.entity.ended_at;
  duration_ms = row.entity.duration_ms;
  outcome = row.entity.outcome;
}

-- `(r.id, r.import_run_id)`
abbrev pub id_and_run : Stored SessionKey SessionColumns → ℕ × ℕ
id_and_run r = (r.id, r.value.import_run_id)

abbrev pub Proposed : Type 0
Proposed = Dict SessionKey (ℕ × SessionRow)

-- A row that was not written, and holds no new key.
abbrev pub attach_session : Bool → SessionRow → ℕ × ℕ → InsertOutcome → InsertOutcome
attach_session first row (row_id, stored_run_id) done = record done {
  existing = insert row.entity.id row_id done.existing;
  duplicates =
      if first && not (stored_run_id == row.import_run_id)
      then done.duplicates ++ row.entity.id ∷ []
      else done.duplicates;
}

-- One round of the loop over the rows, the row at position `i`.
unfoldable pub settle_session :
    Proposed
    → Dict SessionKey ℕ
    → Dict SessionKey (ℕ × ℕ)
    → ℕ
    → SessionRow
    → InsertOutcome
    → Run InsertOutcome
settle_session proposed written stored i row done = do
  candidate ← require key_error (lookup (session_key row) proposed)
  let first = candidate.0 == i
  elim (lookup (session_key row) written) [
    | some row_id ↦
        if first
        then ok (record done { assigned = insert row.entity.id row_id done.assigned })
        else ok (record done { existing = insert row.entity.id row_id done.existing })
    | none ↦ require other_error (lookup (session_key row) stored) >>= λ found.
        ok (attach_session first row found done)
  ]

unfoldable pub settle_sessions :
    Proposed
    → Dict SessionKey ℕ
    → Dict SessionKey (ℕ × ℕ)
    → ℕ
    → List SessionRow
    → InsertOutcome
    → Run InsertOutcome
unfolding settle_session
settle_sessions proposed written stored i [] done = ok done
settle_sessions proposed written stored i (row ∷ rows) done =
    settle_session proposed written stored i row done >>= λ next.
    settle_sessions proposed written stored (suc i) rows next

-- The columns of the table `session`, the width of its insertions.
abbrev pub session_width : ℕ
session_width = 11

-- The statements of `add_many`, when none is refused.
unfoldable pub store_sessions : List SessionRow → SessionTable → Run (InsertOutcome × SessionTable)
unfolding settle_sessions reconcile candidates
store_sessions [] t = ok (empty_outcome [], t)
store_sessions rows t = do
  let done = reconcile session_key session_columns id_and_run session_width rows t
  outcome ←
      settle_sessions (candidates session_key rows) done.written done.already 0 rows
        (empty_outcome [])
  ok (outcome, done.after)

-- The constraints of the table `session`.
abbrev pub session_constraints : Server → Referents → Constraints SessionKey SessionColumns
session_constraints server held = record {
  checks = λ (key, row).
      server.accepts text_column (str key.1)
      && nullable server timestamp_column row.started_at
      && nullable server timestamp_column row.ended_at
      && nullable server bigint_column row.duration_ms
      && nullable server text_column row.outcome
      && in_check valid_outcomes row.outcome;
  refers = λ (key, row).
      contains key.0 server.data_sources
      && contains row.import_run_id server.import_runs
      && contains row.raw_record_id held.raw_records
      && optional row.agent_id held.agents
      && optional row.repository_id held.repositories;
}

-- The `values` of the insertion.
abbrev pub session_values : List SessionRow → List (SessionKey × SessionColumns)
session_values rows = values session_key session_columns (candidates session_key rows)

-- `add_many`: a statement that is refused raises, and its transaction leaves nothing.
unfoldable pub add_sessions :
    Constraints SessionKey SessionColumns
    → List SessionRow
    → SessionTable
    → Run (InsertOutcome × SessionTable)
unfolding store_sessions admitted values candidates
add_sessions constraints rows t =
    if admitted constraints t (session_values rows)
    then store_sessions rows t
    else err database_error
