-- ===== src/Running/Totals.antt =====
-- What raises nothing in a batch of src/agentlen/application/use_cases/run_import.py, or only what the
-- database refuses: references are resolved, and rows inserted, in valid tables.
use agent_len.Base.{ℕ, ◌≡◌, refl, true}
use agent_len.Base.{List, [], ◌∷◌, ok}
use agent_len.Base.{arith, All, nat_eq}
use agent_len.Base.{inl, inr, Option-cases}
use agent_len.Base.Dict.{Dict, lookup, insert}
use agent_len.Base.{string_eq, pair_eq, list_eq, int_eq}
use agent_len.Base.{err, ◌⊎◌}
use agent_len.Python.{database_error}
use agent_len.Normalizer.Entities.{ReferenceRequest}
use agent_len.Storage.Table.{IsValid}
use agent_len.Storage.Candidates.{is_present}
use agent_len.Storage.Outcome.{ids}
use agent_len.Storage.Sessions.Settled.{add_sessions-SessionsHeld}
use agent_len.Storage.Sessions.Repeated.{add_sessions-Late}
use agent_len.Storage.Calls.{add_many_model_calls, add_many_tool_calls}
use agent_len.Storage.Calls.{
  model_entity, model_columns, model_call_width, tool_entity, tool_columns,
}
use agent_len.Storage.Calls.{tool_call_width}
use agent_len.Storage.Calls.Accounted.{add_calls-Accounted}
use agent_len.Storage.Records.{RawRecordTable}
use agent_len.Storage.Sessions.{session_constraints}
use agent_len.Storage.Calls.{model_constraints, tool_constraints}
use agent_len.Running.Batch.{referents}
use agent_len.Storage.Referentials.{Referentials, resolve}
use agent_len.Storage.Referentials.Total.{ValidReferentials, resolve-Resolved}
use agent_len.Running.References.{Resolution, request_key, to_dict, resolve_one, resolve_all}
use agent_len.Running.References.{kind_eq}
use agent_len.Running.Rows.{BatchRows}
use agent_len.Running.Batch.{Database, Inserted}
use agent_len.Running.Batch.{insert_rows, duplicate_rows}
use agent_len.Running.Apart.{Apart, Rising-Distinct}

-- Valid tables.
pub record ValidDatabase (db : Database) : Type 0 where
  pub raw_records : IsValid db.raw_records
  pub sessions : IsValid db.sessions
  pub model_calls : IsValid db.model_calls
  pub tool_calls : IsValid db.tool_calls
  pub referentials : ValidReferentials db.referentials

-- Resolving references in valid tables raises nothing.
pub resolve_all-total :
    (requests : List ReferenceRequest) (r : Resolution Referentials)
    → ValidReferentials r.state
    → (next : Resolution Referentials) × (resolve_all resolve requests r ≡ ok next)
      × ValidReferentials next.state
unfolding resolve_all resolve_one
resolve_all-total [] r h = (r, refl, h)
resolve_all-total (q ∷ requests) r h = elim (Option-cases (lookup (request_key q) r.cache)) [
  | inr (id, is) ↦
      let (next, ran, valid) =
        resolve_all-total requests (record r { resolved = insert (request_key q) id r.resolved })
          h in
      (next, rw (is, resolve_one) ran, valid)
  | inl missing ↦
      let (id, after, ran, done) =
        resolve-Resolved q.kind q.name (to_dict [] q.context) r.state h in
      let (next, rest, valid) =
        resolve_all-total requests
          (record {
            resolved = insert (request_key q) id r.resolved;
            cache = insert (request_key q) id r.cache;
            state = after;
          })
          done.valid in
      (next, rw (missing, resolve_one, ran) rest, valid)
]

duplicate_rows-total :
    (entities : List ℕ) (existing : Dict ℕ ℕ)
    → All (λ u. is_present (lookup u existing) ≡ true) entities
    → (rows : List ℕ) × (duplicate_rows entities existing ≡ ok rows)
unfolding duplicate_rows
duplicate_rows-total [] existing h = ([], refl)
duplicate_rows-total (u ∷ us) existing h = elim (Option-cases (lookup u existing)) [
  | inl lost ↦ absurd (cc (lost, h.0))
  | inr (row, is) ↦
      let (rows, ran) = duplicate_rows-total us existing h.1 in (row ∷ rows, rw (is, ran) refl)
]

-- The tables that the rows go into.
pub record ValidAfter (done : Inserted) : Type 0 where
  pub sessions : IsValid done.sessions.1
  pub models : IsValid done.models.1
  pub tools : IsValid done.tools.1

-- An insertion of rows of different entities goes through, or a constraint refuses a row.
pub insert_rows-total :
    (rows : BatchRows) (raw : RawRecordTable) (references : Referentials) (db : Database)
    (low high : ℕ)
    → Apart low high rows
    → ValidDatabase db
    → ((done : Inserted) × (insert_rows rows raw references db ≡ ok done) × ValidAfter done)
      ⊎ (insert_rows rows raw references db ≡ err database_error)
unfolding insert_rows add_many_model_calls add_many_tool_calls
insert_rows-total rows raw references db low high apart h =
    let first = session_constraints db.server (referents raw references db.sessions) in
    elim (add_sessions-SessionsHeld first rows.sessions db.sessions h.sessions
      (Rising-Distinct low high _ apart.sessions)) [
        | inr (_, refused) ↦ inr (rw refused refl)
        | inl (_, (s_out, s_table, s_ran, s_valid, s_held)) ↦
            let held = referents raw references s_table in
            elim (add_calls-Accounted model_entity model_columns model_call_width
              (model_constraints db.server held) rows.model_calls (ids s_out) db.model_calls
              (omega arith, omega arith) h.model_calls (Rising-Distinct low high _ apart.models)) [
                | inr (_, refused) ↦ inr (rw (s_ran, refused) refl)
                | inl (_, (m_out, m_table, m_ran, m_valid, m_held, m_counted)) ↦
                    elim (add_calls-Accounted tool_entity tool_columns tool_call_width
                      (tool_constraints db.server held) rows.tool_calls (ids s_out) db.tool_calls
                      (omega arith, omega arith) h.tool_calls
                      (Rising-Distinct low high _ apart.tools)) [
                        | inr (_, refused) ↦ inr (rw (s_ran, m_ran, refused) refl)
                        | inl (_, (t_out, t_table, t_ran, t_valid, t_held, t_counted)) ↦
                            let (existing, d_ran) =
                              duplicate_rows-total s_out.duplicates s_out.existing
                                (add_sessions-Late first rows.sessions db.sessions s_ran) in
                            inl (
                              record {
                                sessions = (s_out, s_table);
                                models = (m_out, m_table);
                                tools = (t_out, t_table);
                                existing = existing;
                              },
                              rw (s_ran, m_ran, t_ran, d_ran) refl,
                              record { sessions = s_valid; models = m_valid; tools = t_valid },
                            )
                      ]
              ]
      ]
