-- ===== src/Storage/Sessions/Settled.antt =====
-- What an insertion of sessions in src/agentlen/infrastructure/persistence/repositories/sql.py gives each
-- entity, and that it writes nothing twice.
use agent_len.Base.{ℕ, suc, ◌≡◌, refl, ap, ◌∙◌, sym, inl, inr, true}
use agent_len.Base.{Option, some, List, [], ◌∷◌, All, arith}
use agent_len.Base.{◌==◌, nat_eq, string_eq, pair_eq, Bool-cases, Option-cases}
use agent_len.Base.{ok}
use agent_len.Base.Dict.{lookup, insert}
use agent_len.Storage.Table.{IsValid}
use agent_len.Storage.Candidates.{candidates, candidates-all, is_present}
use agent_len.Base.{map}
use agent_len.Storage.Distinct.{Distinct, Distinct-determines}
use agent_len.Storage.Outcome.{InsertOutcome, empty_outcome, ids, known, Right, insert-Right}
use agent_len.Storage.Outcome.{
  lookup-ids, stored_id, stored_id-some, known-assigned, known-existing,
}
use agent_len.Storage.Reconcile.{
  Reconciled, reconcile, reconcile-IsValid, reconcile-Held, Held, IsWidth,
}
use agent_len.Storage.Sessions.{SessionRow, SessionColumns, SessionKey, SessionTable, session_key}
use agent_len.Storage.Sessions.{
  session_columns, id_and_run, Proposed, attach_session, settle_session,
}
use agent_len.Storage.Sessions.{
  settle_sessions, session_width, store_sessions, session_values, add_sessions,
}
use agent_len.Storage.Constraints.{Constraints, admitted, Admitted, admitted-Admitted}
use agent_len.Python.{database_error}
use agent_len.Base.{◌⊎◌, err}

-- What an insertion of sessions promises: every row's entity has the id of the row that holds its
-- natural key.
abbrev pub SessionsHeld : SessionTable → List SessionRow → InsertOutcome → Type 0
SessionsHeld after rows outcome =
    All
      (λ row.
        (id : ℕ) × (lookup row.entity.id (ids outcome) ≡ some id)
        × (stored_id (session_key row) after.rows ≡ some id))
      rows

-- What the loop over the rows keeps: ids that are right, by `natural`, the id stored for an entity.
abbrev BothRight : (ℕ → Option ℕ) → InsertOutcome → Type 0
BothRight natural done = Right natural done.assigned × Right natural done.existing

-- What a round makes of an outcome.
record Step (natural : ℕ → Option ℕ) (u : ℕ) (done next : InsertOutcome) : Type 0 where
  right : BothRight natural next
  here : known next u ≡ true
  kept : (w : ℕ) → known done w ≡ true → known next w ≡ true

assigned-Step :
    (natural : ℕ → Option ℕ) (u v : ℕ) (done : InsertOutcome)
    → natural u ≡ some v
    → BothRight natural done
    → Step natural u done (record done { assigned = insert u v done.assigned })
assigned-Step natural u v done h both = record {
  right = (insert-Right natural u v done.assigned h both.0, both.1);
  here = known-assigned done u u v ∙ ground arith;
  kept = λ w k. known-assigned done u w v ∙ ground (arith, k);
}

existing-Step :
    (natural : ℕ → Option ℕ) (u v : ℕ) (late : List ℕ) (done : InsertOutcome)
    → natural u ≡ some v
    → BothRight natural done
    → Step natural u done (record done { existing = insert u v done.existing; duplicates = late })
existing-Step natural u v late done h both = record {
  right = (both.0, insert-Right natural u v done.existing h both.1);
  here = known-existing done u u v late ∙ ground arith;
  kept = λ w k. known-existing done u w v late ∙ ground (arith, k);
}

module _ (t : SessionTable) (proposed : Proposed)
    (done_by : Reconciled SessionKey SessionColumns (ℕ × ℕ)) (natural : ℕ → SessionKey) where
  abbrev id_of : ℕ → Option ℕ
  id_of u = stored_id (natural u) done_by.after.rows

  -- A row of a batch: its key is a candidate, is held, and is that of its entity.
  abbrev IsReady : SessionRow → Type 0
  IsReady row =
      (is_present (lookup (session_key row) proposed) ≡ true)
      × Held session_key session_columns id_and_run t done_by (session_key row)
      × (session_key row ≡ natural row.entity.id)

  rows-IsReady :
      (rows : List SessionRow)
      → All (λ row. is_present (lookup (session_key row) proposed) ≡ true) rows
      → All (λ row. Held session_key session_columns id_and_run t done_by (session_key row)) rows
      → All (λ row. session_key row ≡ natural row.entity.id) rows
      → All IsReady rows
  rows-IsReady [] a b c = tt
  rows-IsReady (row ∷ rows) a b c = ((a.0, b.0, c.0), rows-IsReady rows a.1 b.1 c.1)

  settle_session-Step :
      (i : ℕ) (row : SessionRow) (done : InsertOutcome)
      → IsReady row
      → BothRight id_of done
      → (next : InsertOutcome) × (settle_session proposed done_by.written done_by.already i row done
          ≡ ok next)
        × Step id_of row.entity.id done next
  unfolding settle_session
  settle_session-Step i row done (offered, (r, found, held), same) both =
      let mine : id_of row.entity.id ≡ some r.id =
        ap (λ k. stored_id k done_by.after.rows) (sym same)
        ∙ stored_id-some (session_key row) done_by.after.rows found in
      elim (Option-cases (lookup (session_key row) proposed)) [
        | inl lost ↦ absurd (cc (lost, offered))
        | inr (c, is) ↦ elim held [
          | inl (free, written) ↦ elim (Bool-cases (c.0 == i)) [
            | inl first ↦ (
              record done { assigned = insert row.entity.id r.id done.assigned },
              rw (is, written, first) refl,
              assigned-Step id_of row.entity.id r.id done mine both,
            )
            | inr later ↦ (
              record done { existing = insert row.entity.id r.id done.existing },
              rw (is, written, later) refl,
              existing-Step id_of row.entity.id r.id done.duplicates done mine both,
            )
          ]
          | inr (before, unwritten, stored) ↦ (
            attach_session (c.0 == i) row (id_and_run r) done,
            rw (is, unwritten, stored) refl,
            existing-Step id_of row.entity.id r.id
                (attach_session (c.0 == i) row (id_and_run r) done).duplicates done mine both,
          )
        ]
      ]

  -- The loop settles every row.
  settle_sessions-Settled :
      (i : ℕ) (rows : List SessionRow) (done : InsertOutcome)
      → All IsReady rows
      → BothRight id_of done
      → (next : InsertOutcome) × (settle_sessions proposed done_by.written done_by.already i rows
            done
          ≡ ok next)
        × BothRight id_of next
        × All (λ row. known next row.entity.id ≡ true) rows
        × ((w : ℕ) → known done w ≡ true → known next w ≡ true)
  unfolding settle_sessions
  settle_sessions-Settled i [] done ready both = (done, refl, both, tt, λ w k. k)
  settle_sessions-Settled i (row ∷ rows) done ready both =
      let (middle, ran, step) = settle_session-Step i row done ready.0 both in
      let (next, rest, right, all, kept) =
        settle_sessions-Settled (suc i) rows middle ready.1 step.right in
      (next, rw ran rest, right, (kept row.entity.id step.here, all), λ w k. kept w (step.kept w k))

  settled_row :
      (row : SessionRow) (next : InsertOutcome)
      → BothRight id_of next
      → IsReady row × (known next row.entity.id ≡ true)
      → (id : ℕ) × (lookup row.entity.id (ids next) ≡ some id)
        × (stored_id (session_key row) done_by.after.rows ≡ some id)
  settled_row row next both ((offered, (r, found, held), same), here) =
      let mine = stored_id-some (session_key row) done_by.after.rows found in
      (
        r.id,
        lookup-ids id_of next row.entity.id both.0 both.1 here
            ∙ ap (λ k. stored_id k done_by.after.rows) (sym same)
            ∙ mine,
        mine,
      )

  settled_rows :
      (rows : List SessionRow) (next : InsertOutcome)
      → BothRight id_of next
      → All IsReady rows
      → All (λ row. known next row.entity.id ≡ true) rows
      → SessionsHeld done_by.after rows next
  settled_rows [] next both ready here = tt
  settled_rows (row ∷ rows) next both ready here =
      (settled_row row next both (ready.0, here.0), settled_rows rows next both ready.1 here.1)

add_named :
    (natural : ℕ → SessionKey) (rows : List SessionRow) (t : SessionTable)
    → IsValid t
    → All (λ row. session_key row ≡ natural row.entity.id) rows
    → (outcome : InsertOutcome) × (after : SessionTable) × (store_sessions rows t
        ≡ ok (outcome, after))
      × IsValid after
      × SessionsHeld after rows outcome
unfolding store_sessions
add_named natural [] t valid named = (empty_outcome [], t, refl, valid, tt)
add_named natural (row ∷ rows) t valid named =
    let all = row ∷ rows in
    let width : IsWidth session_width = (omega arith, omega arith) in
    let done = reconcile session_key session_columns id_and_run session_width all t in
    let held =
      reconcile-Held session_key session_columns id_and_run session_width all t width valid in
    let ready : All (IsReady t (candidates session_key all) done natural) all =
      rows-IsReady t (candidates session_key all) done natural all (candidates-all session_key all)
        held named in
    let (outcome, ran, both, here, kept) =
      settle_sessions-Settled t (candidates session_key all) done natural 0 all (empty_outcome [])
        ready (tt, tt) in
    (
      outcome,
      done.after,
      rw ran refl,
      reconcile-IsValid session_key session_columns id_and_run session_width all t width valid,
      settled_rows t (candidates session_key all) done natural all outcome both ready here,
    )

store_sessions-SessionsHeld :
    (rows : List SessionRow) (t : SessionTable)
    → IsValid t
    → Distinct (map (λ row. row.entity.id) rows)
    → (outcome : InsertOutcome) × (after : SessionTable) × (store_sessions rows t
        ≡ ok (outcome, after))
      × IsValid after
      × SessionsHeld after rows outcome
store_sessions-SessionsHeld rows t valid distinct =
    let (natural, named) =
      Distinct-determines (λ row. row.entity.id) session_key (0, "") rows distinct in
    add_named natural rows t valid named

-- An insertion of sessions with distinct entities into a valid table raises the database's error
-- exactly if a row that is to be inserted violates a constraint of the table. Otherwise it leaves a
-- valid table, in which each entity's id is that of the row that holds its natural key.
pub add_sessions-SessionsHeld :
    (constraints : Constraints SessionKey SessionColumns) (rows : List SessionRow)
    (t : SessionTable)
    → IsValid t
    → Distinct (map (λ row. row.entity.id) rows)
    → (All (Admitted constraints t) (session_values rows)
        × ((outcome : InsertOutcome) × (after : SessionTable) × (add_sessions constraints rows t
              ≡ ok (outcome, after))
            × IsValid after
            × SessionsHeld after rows outcome))
      ⊎ (¬ All (Admitted constraints t) (session_values rows)
          × (add_sessions constraints rows t ≡ err database_error))
unfolding add_sessions
add_sessions-SessionsHeld constraints rows t valid distinct =
    let fits = admitted-Admitted constraints t (session_values rows) in
    elim (Bool-cases (admitted constraints t (session_values rows))) [
      | inl e ↦
          let (outcome, after, ran, kept, held) =
            store_sessions-SessionsHeld rows t valid distinct in
          inl (fits.0 e, (outcome, after, rw e ran, kept, held))
      | inr e ↦ inr (λ all. cc (fits.1 all, e), rw e refl)
    ]
