-- ===== src/Storage/Sessions/Repeated.antt =====
-- Sessions that come again in src/agentlen/infrastructure/persistence/repositories/sql.py: they are not written
-- twice, and a duplicate has the id of a row.
use agent_len.Base.{ℕ, suc, ◌≡◌, ap, ◌∙◌, sym, inl, inr, Bool, true, not}
use agent_len.Base.{◌&&◌, List, [], ◌∷◌, All, arith, length}
use agent_len.Base.{◌==◌, nat_eq, string_eq, pair_eq, Bool-cases, Option-cases}
use agent_len.Base.{ok, ok-injective, >>=-eq-ok, require}
use agent_len.Base.Dict.{Dict, lookup, insert, lookup-insert}
use agent_len.Base.{All-append}
use agent_len.Python.{key_error, other_error}
use agent_len.Storage.Table.{find}
use agent_len.Storage.Candidates.{candidates, is_present}
use mathlib.Core.Path.{subst}
use agent_len.Storage.Outcome.{InsertOutcome, inserted_count, empty_outcome}
use agent_len.Storage.Reconcile.{reconcile, reconcile-stored}
use agent_len.Storage.Sessions.{SessionRow, SessionKey, SessionTable, session_key}
use agent_len.Storage.Sessions.{
  session_columns, id_and_run, Proposed, attach_session, settle_session,
}
use agent_len.Storage.Sessions.{
  settle_sessions, session_width, store_sessions, add_sessions, session_values, SessionColumns,
}
use agent_len.Storage.Constraints.{Constraints, admitted}

-- With nothing written, nothing is assigned.
settle_session-unassigned :
    (proposed : Proposed) (stored : Dict SessionKey (ℕ × ℕ)) (i : ℕ) (row : SessionRow)
    (done : InsertOutcome) {next : InsertOutcome}
    → settle_session proposed [] stored i row done ≡ ok next
    → next.assigned ≡ done.assigned
unfolding settle_session
settle_session-unassigned proposed stored i row done ran = ground arith

settle_sessions-unassigned :
    (proposed : Proposed) (stored : Dict SessionKey (ℕ × ℕ)) (i : ℕ) (rows : List SessionRow)
    (done : InsertOutcome) {next : InsertOutcome}
    → settle_sessions proposed [] stored i rows done ≡ ok next
    → next.assigned ≡ done.assigned
unfolding settle_sessions
settle_sessions-unassigned proposed stored i [] done ran =
    ap (λ o. o.assigned) (sym (ok-injective ran))
settle_sessions-unassigned proposed stored i (row ∷ rows) done ran =
    let (middle, first, rest) =
      >>=-eq-ok (settle_session proposed [] stored i row done)
        (λ next. settle_sessions proposed [] stored (suc i) rows next) ran in
    settle_sessions-unassigned proposed stored (suc i) rows middle rest
    ∙ settle_session-unassigned proposed stored i row done first

store_sessions-stored :
    (rows : List SessionRow) (t : SessionTable) {outcome : InsertOutcome} {after : SessionTable}
    → All (λ row. is_present (find (session_key row) t.rows) ≡ true) rows
    → store_sessions rows t ≡ ok (outcome, after)
    → (inserted_count outcome ≡ 0) × (after.rows ≡ t.rows)
unfolding store_sessions
store_sessions-stored [] t held ran =
    let returned = ok-injective ran in
    (ap (λ r. length r.0.assigned) (sym returned), ap (λ r. r.1.rows) (sym returned))
store_sessions-stored (row ∷ rows) t held ran =
    let all = row ∷ rows in
    let done = reconcile session_key session_columns id_and_run session_width all t in
    let same =
      reconcile-stored session_key session_columns id_and_run session_width all t
        (omega arith, omega arith) held in
    let (settled, loop, returned) =
      >>=-eq-ok
        (settle_sessions (candidates session_key all) done.written done.already 0 all
          (empty_outcome []))
        (λ outcome. ok (outcome, done.after)) ran in
    let loop_empty =
      subst
        (λ w.
          settle_sessions (candidates session_key all) w done.already 0 all (empty_outcome [])
          ≡ ok settled)
        same.0 loop in
    (
      ap (λ r. length r.0.assigned) (sym (ok-injective returned))
          ∙ ap length (
              settle_sessions-unassigned (candidates session_key all) done.already 0 all
                (empty_outcome []) loop_empty),
      ap (λ r. r.1.rows) (sym (ok-injective returned)) ∙ same.1,
    )

-- What is called a duplicate has the id of a row that exists.
abbrev pub Late : InsertOutcome → Type 0
Late done = All (λ u. is_present (lookup u done.existing) ≡ true) done.duplicates

existing-Late :
    (u v : ℕ) (d : Dict ℕ ℕ) (late : List ℕ)
    → All (λ w. is_present (lookup w d) ≡ true) late
    → All (λ w. is_present (lookup w (insert u v d)) ≡ true) late
existing-Late u v d [] h = tt
existing-Late u v d (w ∷ late) h =
    (ap is_present (lookup-insert u w v d) ∙ ground (arith, h.0), existing-Late u v d late h.1)

attach_session-Late :
    (first : Bool) (row : SessionRow) (found : ℕ × ℕ) (done : InsertOutcome)
    → Late done
    → Late (attach_session first row found done)
attach_session-Late first row found done h =
    elim (Bool-cases (first && not (found.1 == row.import_run_id))) [
      | inl y ↦
          rw (y, attach_session)
            (All-append
              (λ w. is_present (lookup w (insert row.entity.id found.0 done.existing)) ≡ true)
              done.duplicates (row.entity.id ∷ [])
              (existing-Late row.entity.id found.0 done.existing done.duplicates h)
              (
                ap is_present (lookup-insert row.entity.id row.entity.id found.0 done.existing)
                    ∙ ground arith,
                tt,
              ))
      | inr n ↦
          rw (n, attach_session)
            (existing-Late row.entity.id found.0 done.existing done.duplicates h)
    ]

settle_session-Late :
    (proposed : Proposed) (written : Dict SessionKey ℕ) (stored : Dict SessionKey (ℕ × ℕ)) (i : ℕ)
    (row : SessionRow) (done : InsertOutcome) {next : InsertOutcome}
    → settle_session proposed written stored i row done ≡ ok next
    → Late done
    → Late next
unfolding settle_session
settle_session-Late proposed written stored i row done ran h =
    let (c, _, r1) = >>=-eq-ok (require key_error (lookup (session_key row) proposed)) _ ran in
    elim (Option-cases (lookup (session_key row) written)) [
      | inl missing ↦
          let (found, _, r2) =
            >>=-eq-ok (require other_error (lookup (session_key row) stored))
              (λ found. ok (attach_session (c.0 == i) row found done)) (rw missing at r1) in
          subst Late (ok-injective r2) (attach_session-Late (c.0 == i) row found done h)
      | inr (id, is) ↦ elim (Bool-cases (c.0 == i)) [
        | inl first ↦ subst Late (ok-injective (rw (is, first) at r1)) h
        | inr later ↦
            subst Late (ok-injective (rw (is, later) at r1))
              (existing-Late row.entity.id id done.existing done.duplicates h)
      ]
    ]

settle_sessions-Late :
    (proposed : Proposed) (written : Dict SessionKey ℕ) (stored : Dict SessionKey (ℕ × ℕ)) (i : ℕ)
    (rows : List SessionRow) (done : InsertOutcome) {next : InsertOutcome}
    → settle_sessions proposed written stored i rows done ≡ ok next
    → Late done
    → Late next
unfolding settle_sessions
settle_sessions-Late proposed written stored i [] done ran h = subst Late (ok-injective ran) h
settle_sessions-Late proposed written stored i (row ∷ rows) done ran h =
    let (middle, first, rest) =
      >>=-eq-ok (settle_session proposed written stored i row done)
        (λ next. settle_sessions proposed written stored (suc i) rows next) ran in
    settle_sessions-Late proposed written stored (suc i) rows middle rest
      (settle_session-Late proposed written stored i row done first h)

store_sessions-Late :
    (rows : List SessionRow) (t : SessionTable) {outcome : InsertOutcome} {after : SessionTable}
    → store_sessions rows t ≡ ok (outcome, after)
    → Late outcome
unfolding store_sessions
store_sessions-Late [] t ran = subst Late (ap (λ r. r.0) (ok-injective ran)) tt
store_sessions-Late (row ∷ rows) t ran =
    let all = row ∷ rows in
    let done = reconcile session_key session_columns id_and_run session_width all t in
    let (settled, loop, returned) =
      >>=-eq-ok
        (settle_sessions (candidates session_key all) done.written done.already 0 all
          (empty_outcome []))
        (λ outcome. ok (outcome, done.after)) ran in
    subst Late (ap (λ r. r.0) (ok-injective returned)) (
      settle_sessions-Late (candidates session_key all) done.written done.already 0 all
        (empty_outcome []) loop tt)

-- An insertion that returns was not refused.
add_sessions-admitted :
    (constraints : Constraints SessionKey SessionColumns) (rows : List SessionRow)
    (t : SessionTable) {result : InsertOutcome × SessionTable}
    → add_sessions constraints rows t ≡ ok result
    → store_sessions rows t ≡ ok result
unfolding add_sessions
add_sessions-admitted constraints rows t ran =
    elim (Bool-cases (admitted constraints t (session_values rows))) [
      | inl e ↦ rw (e, add_sessions) at ran
      | inr e ↦ absurd (cc (rw (e, add_sessions) at ran))
    ]

-- Sessions that are all stored are not stored again: a second insertion changes no row and assigns
-- no id.
pub add_sessions-stored :
    (constraints : Constraints SessionKey SessionColumns) (rows : List SessionRow)
    (t : SessionTable) {outcome : InsertOutcome} {after : SessionTable}
    → All (λ row. is_present (find (session_key row) t.rows) ≡ true) rows
    → add_sessions constraints rows t ≡ ok (outcome, after)
    → (inserted_count outcome ≡ 0) × (after.rows ≡ t.rows)
add_sessions-stored constraints rows t held ran =
    store_sessions-stored rows t held (add_sessions-admitted constraints rows t ran)

pub add_sessions-Late :
    (constraints : Constraints SessionKey SessionColumns) (rows : List SessionRow)
    (t : SessionTable) {outcome : InsertOutcome} {after : SessionTable}
    → add_sessions constraints rows t ≡ ok (outcome, after)
    → Late outcome
add_sessions-Late constraints rows t ran =
    store_sessions-Late rows t (add_sessions-admitted constraints rows t ran)
