-- ===== src/Storage/Calls.antt =====
-- The model calls and the tool calls of an import, in
-- src/agentlen/infrastructure/persistence/repositories/sql.py: `_link_to_sessions`, `_stored_calls`,
-- `_call_outcome`, and the two `add_many`, whose common body is `add_calls`.
pub mod Accounted
use agent_len.Base.{ℕ, suc, ◌+◌, ◌≡◌, refl, ap, ◌∙◌, sym, ◌⊎◌, inl, inr, Bool, true, false, ◌||◌}
use agent_len.Base.{Option, none, some, List, [], ◌∷◌, ◌++◌, map, All, arith, length, length-append}
use agent_len.Base.{Eq, ◌==◌, nat_eq, pair_eq, int_eq, ℤ, if◌then◌else◌, contains}
use agent_len.Base.{ok, err, ◌>>=◌, ok-injective, >>=-eq-ok, require, Bool-cases, Option-cases}
use agent_len.Base.Dict.{Dict, lookup, insert, lookup-insert}
use agent_len.Json.{Value, int}
use agent_len.Base.{◌&&◌}
use agent_len.Python.{key_error, database_error, other_error}
use agent_len.Engine.Operators.{Run}
use agent_len.Normalizer.Entities.{ModelCall, ToolCall, valid_statuses}
use agent_len.Storage.Table.{Stored, Table, find, IsValid}
use agent_len.Storage.Candidates.{candidates, candidates-all, is_present, values}
use agent_len.Storage.Constraints.{
  Server, Referents, Constraints, text_column, timestamp_column, bigint_column, integer_column,
  optional, in_check, nullable, admitted,
}
use agent_len.Storage.Distinct.{Distinct, Distinct-determines}
use agent_len.Storage.Outcome.{InsertOutcome, inserted_count, duplicate_count, empty_outcome, ids}
use agent_len.Storage.Outcome.{
  known, known-assigned, known-existing, Right, insert-Right, lookup-ids,
}
use agent_len.Storage.Outcome.{stored_id, stored_id-some}
use agent_len.Storage.Reconcile.{
  Reconciled, reconcile, reconcile-IsValid, reconcile-Held, Held, IsWidth,
}
use agent_len.Storage.Reconcile.{reconcile-stored}

-- `(session_id, sequence_index)`
abbrev pub CallKey : Type 0
CallKey = ℕ × ℤ

-- What the two kinds of call have in common: the entity's number, its session's and its index.
pub record CallEntity (Row : Type 0) : Type 0 where
  pub entity_id : Row → ℕ
  pub session_of : Row → ℕ
  pub sequence_index : Row → ℤ

-- What both `_stored_calls` and RETURNING give of a row.
abbrev pub row_id : {V : Type 0} → Stored CallKey V → ℕ
row_id r = r.id

module _ {Row : Type 0} (entity : CallEntity Row) where
  -- `_link_to_sessions`
  unfoldable pub link_to_sessions : List Row → Dict ℕ ℕ → List (Row × ℕ) × List ℕ
  link_to_sessions [] session_ids = ([], [])
  link_to_sessions (row ∷ rows) session_ids =
      let rest = link_to_sessions rows session_ids in
      elim (lookup (entity.session_of row) session_ids) [
        | none ↦ (rest.0, entity.entity_id row ∷ rest.1)
        | some sid ↦ ((row, sid) ∷ rest.0, rest.1)
      ]

  abbrev pub call_key : Row × ℕ → CallKey
  call_key (row, sid) = (sid, entity.sequence_index row)

  abbrev pub linked_id : Row × ℕ → ℕ
  linked_id (row, sid) = entity.entity_id row

  abbrev Proposed : Type 0
  Proposed = Dict CallKey (ℕ × (Row × ℕ))

  abbrev assign_call : Row × ℕ → ℕ → InsertOutcome → InsertOutcome
  assign_call call id done = record done { assigned = insert (linked_id call) id done.assigned }

  abbrev repeat_call : Row × ℕ → ℕ → InsertOutcome → InsertOutcome
  repeat_call call id done = record done {
    existing = insert (linked_id call) id done.existing;
    duplicates = done.duplicates ++ linked_id call ∷ [];
  }

  -- One round of the loop of `_call_outcome`, the call at position `i`.
  unfoldable pub settle_call :
      Proposed → Dict CallKey ℕ → Dict CallKey ℕ → ℕ → Row × ℕ → InsertOutcome → Run InsertOutcome
  settle_call proposed written stored i call done = elim (lookup (call_key call) written) [
    | some id ↦ require key_error (lookup (call_key call) proposed) >>= λ candidate.
        if candidate.0 == i then ok (assign_call call id done) else ok (repeat_call call id done)
    | none ↦
        require other_error (lookup (call_key call) stored) >>= λ id. ok (repeat_call call id done)
  ]

  -- `_call_outcome`
  unfoldable pub call_outcome :
      Proposed
      → Dict CallKey ℕ
      → Dict CallKey ℕ
      → ℕ
      → List (Row × ℕ)
      → InsertOutcome
      → Run InsertOutcome
  unfolding settle_call
  call_outcome proposed written stored i [] done = ok done
  call_outcome proposed written stored i (call ∷ calls) done =
      settle_call proposed written stored i call done >>= λ next.
      call_outcome proposed written stored (suc i) calls next

  module _ {V : Type 0} (columns : Row × ℕ → V) (width : ℕ) where
    abbrev pub add_linked :
        List (Row × ℕ) → List ℕ → Table CallKey V → Run (InsertOutcome × Table CallKey V)
    add_linked [] unlinked t = ok (empty_outcome unlinked, t)
    add_linked (call ∷ calls) unlinked t =
        let linked = call ∷ calls in
        let done = reconcile call_key columns row_id width linked t in
        call_outcome (candidates call_key linked) done.written done.already 0 linked
          (empty_outcome unlinked)
        >>= λ outcome. ok (outcome, done.after)

    -- The `values` of the insertion.
    abbrev pub call_values : List (Row × ℕ) → List (CallKey × V)
    call_values linked = values call_key columns (candidates call_key linked)

    -- The statements of `add_many`, when none is refused.
    unfoldable pub store_calls :
        List Row → Dict ℕ ℕ → Table CallKey V → Run (InsertOutcome × Table CallKey V)
    unfolding link_to_sessions call_outcome reconcile candidates
    store_calls rows session_ids t =
        let (linked, unlinked) = link_to_sessions rows session_ids in add_linked linked unlinked t

    -- `add_many`: a statement that is refused raises, and its transaction leaves nothing.
    unfoldable pub add_calls :
        Constraints CallKey V
        → List Row
        → Dict ℕ ℕ
        → Table CallKey V
        → Run (InsertOutcome × Table CallKey V)
    unfolding link_to_sessions store_calls admitted values candidates
    add_calls constraints rows session_ids t =
        if admitted constraints t (call_values (link_to_sessions rows session_ids).0)
        then store_calls rows session_ids t
        else err database_error

pub record ModelCallRow : Type 0 where
  pub entity : ModelCall
  pub raw_record_id : ℕ
  pub model_id : Option ℕ

pub record ModelCallColumns : Type 0 where
  pub raw_record_id : ℕ
  pub model_id : Option ℕ
  pub started_at : Value
  pub duration_ms : Value
  pub input_tokens : Value
  pub output_tokens : Value
  pub cache_read_tokens : Value
  pub cache_creation_tokens : Value
  pub stop_reason : Value
  pub status : Value
  pub error_code : Value

abbrev pub model_entity : CallEntity ModelCallRow
model_entity = record {
  entity_id = λ row. row.entity.id;
  session_of = λ row. row.entity.session_id;
  sequence_index = λ row. row.entity.sequence_index;
}

abbrev pub model_columns : ModelCallRow × ℕ → ModelCallColumns
model_columns (r, sid) = record {
  raw_record_id = r.raw_record_id;
  model_id = r.model_id;
  started_at = r.entity.started_at;
  duration_ms = r.entity.duration_ms;
  input_tokens = r.entity.token_usage.input_tokens;
  output_tokens = r.entity.token_usage.output_tokens;
  cache_read_tokens = r.entity.token_usage.cache_read_tokens;
  cache_creation_tokens = r.entity.token_usage.cache_creation_tokens;
  stop_reason = r.entity.stop_reason;
  status = r.entity.status;
  error_code = r.entity.error_code;
}

-- The number of columns of each table.
abbrev pub model_call_width : ℕ
model_call_width = 16

abbrev pub tool_call_width : ℕ
tool_call_width = 13

abbrev pub ModelCallTable : Type 0
ModelCallTable = Table CallKey ModelCallColumns

-- The constraints of the table `model_call`.
abbrev pub model_constraints : Server → Referents → Constraints CallKey ModelCallColumns
model_constraints server held = record {
  checks = λ (key, row).
      server.accepts integer_column (int key.1)
      && nullable server timestamp_column row.started_at
      && nullable server bigint_column row.duration_ms
      && nullable server integer_column row.input_tokens
      && nullable server integer_column row.output_tokens
      && nullable server integer_column row.cache_read_tokens
      && nullable server integer_column row.cache_creation_tokens
      && nullable server text_column row.stop_reason
      && server.accepts text_column row.status
      && in_check valid_statuses row.status
      && nullable server text_column row.error_code;
  refers = λ (key, row).
      contains key.0 held.sessions
      && contains row.raw_record_id held.raw_records
      && optional row.model_id held.models;
}

unfoldable pub add_many_model_calls :
    Constraints CallKey ModelCallColumns
    → List ModelCallRow
    → Dict ℕ ℕ
    → ModelCallTable
    → Run (InsertOutcome × ModelCallTable)
unfolding add_calls
add_many_model_calls constraints rows session_ids t =
    add_calls model_entity model_columns model_call_width constraints rows session_ids t

pub record ToolCallRow : Type 0 where
  pub entity : ToolCall
  pub raw_record_id : ℕ
  pub tool_id : ℕ

-- `model_call_id` looks `entity.model_call_id` up, which no call sets: it stays NULL.
pub record ToolCallColumns : Type 0 where
  pub raw_record_id : ℕ
  pub tool_id : ℕ
  pub started_at : Value
  pub duration_ms : Value
  pub status : Value
  pub error_message : Value

abbrev pub tool_entity : CallEntity ToolCallRow
tool_entity = record {
  entity_id = λ row. row.entity.id;
  session_of = λ row. row.entity.session_id;
  sequence_index = λ row. row.entity.sequence_index;
}

abbrev pub tool_columns : ToolCallRow × ℕ → ToolCallColumns
tool_columns (r, sid) = record {
  raw_record_id = r.raw_record_id;
  tool_id = r.tool_id;
  started_at = r.entity.started_at;
  duration_ms = r.entity.duration_ms;
  status = r.entity.status;
  error_message = r.entity.error_message;
}

abbrev pub ToolCallTable : Type 0
ToolCallTable = Table CallKey ToolCallColumns

-- The constraints of the table `tool_call`.
abbrev pub tool_constraints : Server → Referents → Constraints CallKey ToolCallColumns
tool_constraints server held = record {
  checks = λ (key, row).
      server.accepts integer_column (int key.1)
      && nullable server timestamp_column row.started_at
      && nullable server bigint_column row.duration_ms
      && server.accepts text_column row.status
      && in_check valid_statuses row.status
      && nullable server text_column row.error_message;
  refers = λ (key, row).
      contains key.0 held.sessions
      && contains row.raw_record_id held.raw_records
      && contains row.tool_id held.tools;
}

unfoldable pub add_many_tool_calls :
    Constraints CallKey ToolCallColumns
    → List ToolCallRow
    → Dict ℕ ℕ
    → ToolCallTable
    → Run (InsertOutcome × ToolCallTable)
unfolding add_calls
add_many_tool_calls constraints rows session_ids t =
    add_calls tool_entity tool_columns tool_call_width constraints rows session_ids t
