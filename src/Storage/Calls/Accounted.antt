-- ===== src/Storage/Calls/Accounted.antt =====
-- What `_call_outcome` of src/agentlen/infrastructure/persistence/repositories/sql.py makes of the calls
-- of a batch: each is inserted, a duplicate or unlinked, and has the id of its key.
use agent_len.Base.{◌⊎◌, err}
use agent_len.Python.{database_error}
use agent_len.Storage.Constraints.{Constraints, admitted, Admitted, admitted-Admitted}
use agent_len.Storage.Calls.{call_values, store_calls}
use agent_len.Engine.Operators.{Run}
use agent_len.Base.{ℕ, suc, ◌+◌, ◌≡◌, refl, ap, ◌∙◌, sym, inl, inr, true, false}
use agent_len.Base.{Option, none, some, List, [], ◌∷◌, ◌++◌, map, All, arith, length, length-append}
use agent_len.Base.{◌==◌, nat_eq, pair_eq, int_eq, pos, contains}
use agent_len.Base.{ok, Bool-cases, Option-cases}
use agent_len.Base.Dict.{Dict, lookup, insert, lookup-insert}
use agent_len.Storage.Table.{Table, IsValid}
use agent_len.Storage.Candidates.{candidates, candidates-all, is_present}
use agent_len.Storage.Distinct.{Distinct, Distinct-determines}
use agent_len.Storage.Outcome.{InsertOutcome, inserted_count, duplicate_count, empty_outcome, ids}
use agent_len.Storage.Outcome.{
  known, known-assigned, known-existing, Right, insert-Right, lookup-ids,
}
use agent_len.Storage.Outcome.{stored_id, stored_id-some}
use agent_len.Storage.Reconcile.{
  Reconciled, reconcile, reconcile-IsValid, reconcile-Held, Held, IsWidth,
}
use agent_len.Storage.Calls.{CallEntity, CallKey, link_to_sessions, call_key, linked_id, row_id}
use agent_len.Storage.Calls.{settle_call, call_outcome, add_calls, add_linked}

-- Each call has the id under which its session and index are stored.
abbrev pub CallsHeld :
    {Row V : Type 0} → CallEntity Row → Table CallKey V → List (Row × ℕ) → InsertOutcome → Type 0
CallsHeld entity after calls outcome =
    All
      (λ c.
        (id : ℕ) × (lookup (linked_id entity c) (ids outcome) ≡ some id)
        × (stored_id (call_key entity c) after.rows ≡ some id))
      calls

abbrev total : InsertOutcome → ℕ
total done = inserted_count done + duplicate_count done

-- What a round makes of an outcome, for an entity that is not assigned yet.
record Step (natural : ℕ → Option ℕ) (u : ℕ) (done next : InsertOutcome) : Type 0 where
  right : Right natural next.assigned × Right natural next.existing
  here : known next u ≡ true
  kept : (w : ℕ) → known done w ≡ true → known next w ≡ true
  counted : lookup u done.assigned ≡ none → total next ≡ suc (total done)
  apart : (w : ℕ) → (u == w) ≡ false → lookup w next.assigned ≡ lookup w done.assigned
  missing : next.unlinked ≡ done.unlinked

length-insert :
    (u v : ℕ) (d : Dict ℕ ℕ) → lookup u d ≡ none → length (insert u v d) ≡ suc (length d)
length-insert u v [] h = refl
length-insert u v ((w, i) ∷ d) h = ground (arith, length-insert u v d)

none_assigned :
    {Row : Type 0} (calls : List (Row × ℕ)) → All (λ (c : Row × ℕ). Path (Option ℕ) none none) calls
none_assigned [] = tt
none_assigned (c ∷ calls) = (refl, none_assigned calls)

assigned-Step :
    (natural : ℕ → Option ℕ) (u v : ℕ) (done : InsertOutcome)
    → natural u ≡ some v
    → Right natural done.assigned × Right natural done.existing
    → Step natural u done (record done { assigned = insert u v done.assigned })
assigned-Step natural u v done h both = record {
  right = (insert-Right natural u v done.assigned h both.0, both.1);
  here = known-assigned done u u v ∙ ground arith;
  kept = λ w k. known-assigned done u w v ∙ ground (arith, k);
  counted = λ free. omega (arith, length-insert u v done.assigned free);
  apart = λ w other. lookup-insert u w v done.assigned ∙ rw other refl;
  missing = refl;
}

repeat-Step :
    (natural : ℕ → Option ℕ) (u v : ℕ) (done : InsertOutcome)
    → natural u ≡ some v
    → Right natural done.assigned × Right natural done.existing
    → Step natural u done (record done {
      existing = insert u v done.existing;
      duplicates = done.duplicates ++ u ∷ [];
    })
repeat-Step natural u v done h both = record {
  right = (both.0, insert-Right natural u v done.existing h both.1);
  here = known-existing done u u v (done.duplicates ++ u ∷ []) ∙ ground arith;
  kept = λ w k. known-existing done u w v (done.duplicates ++ u ∷ []) ∙ ground (arith, k);
  counted = λ free. omega (arith, length-append done.duplicates (u ∷ []));
  apart = λ w other. refl;
  missing = refl;
}

module _ {Row : Type 0} (entity : CallEntity Row) {V : Type 0} (columns : Row × ℕ → V)
    (t : Table CallKey V) (proposed : Dict CallKey (ℕ × (Row × ℕ))) (by : Reconciled CallKey V ℕ)
    (natural : ℕ → CallKey) where
  abbrev id_of : ℕ → Option ℕ
  id_of u = stored_id (natural u) by.after.rows

  abbrev IsReady : Row × ℕ → Type 0
  IsReady call =
      (is_present (lookup (call_key entity call) proposed) ≡ true)
      × Held (call_key entity) columns row_id t by (call_key entity call)
      × (call_key entity call ≡ natural (linked_id entity call))

  calls-IsReady :
      (calls : List (Row × ℕ))
      → All (λ c. is_present (lookup (call_key entity c) proposed) ≡ true) calls
      → All (λ c. Held (call_key entity) columns row_id t by (call_key entity c)) calls
      → All (λ c. call_key entity c ≡ natural (linked_id entity c)) calls
      → All IsReady calls
  calls-IsReady [] a b c = tt
  calls-IsReady (row ∷ rows) a b c = ((a.0, b.0, c.0), calls-IsReady rows a.1 b.1 c.1)

  settle_call-Step :
      (i : ℕ) (call : Row × ℕ) (done : InsertOutcome)
      → IsReady call
      → Right id_of done.assigned × Right id_of done.existing
      → (next : InsertOutcome) × (settle_call entity proposed by.written by.already i call done
          ≡ ok next)
        × Step id_of (linked_id entity call) done next
  unfolding settle_call
  settle_call-Step i call done (offered, (r, found, held), same) both =
      let u = linked_id entity call in
      let mine : id_of u ≡ some r.id =
        ap (λ k. stored_id k by.after.rows) (sym same)
        ∙ stored_id-some (call_key entity call) by.after.rows found in
      let again : InsertOutcome = record done {
        existing = insert u r.id done.existing;
        duplicates = done.duplicates ++ u ∷ [];
      } in
      elim (Option-cases (lookup (call_key entity call) proposed)) [
        | inl lost ↦ absurd (cc (lost, offered))
        | inr (c, is) ↦ elim held [
          | inl (free, written) ↦ elim (Bool-cases (c.0 == i)) [
            | inl first ↦ (
              record done { assigned = insert u r.id done.assigned },
              rw (written, settle_call, is, first) refl,
              assigned-Step id_of u r.id done mine both,
            )
            | inr later ↦ (
              again,
              rw (written, settle_call, is, later) refl,
              repeat-Step id_of u r.id done mine both,
            )
          ]
          | inr (before, unwritten, stored) ↦ (
            again,
            rw (unwritten, stored, settle_call) refl,
            repeat-Step id_of u r.id done mine both,
          )
        ]
      ]

  -- What the loop makes of the calls, whose entities are distinct and not assigned before.
  record Settled (calls : List (Row × ℕ)) (done next : InsertOutcome) : Type 0 where
    right : Right id_of next.assigned × Right id_of next.existing
    here : All (λ c. known next (linked_id entity c) ≡ true) calls
    kept : (w : ℕ) → known done w ≡ true → known next w ≡ true
    counted : total next ≡ length calls + total done
    missing : next.unlinked ≡ done.unlinked

  still_free :
      (u : ℕ) (calls : List (Row × ℕ)) (done next : InsertOutcome)
      → Step id_of u done next
      → contains u (map (linked_id entity) calls) ≡ false
      → All (λ c. lookup (linked_id entity c) done.assigned ≡ none) calls
      → All (λ c. lookup (linked_id entity c) next.assigned ≡ none) calls
  still_free u [] done next step away free = tt
  still_free u (c ∷ calls) done next step away free = (
    step.apart (linked_id entity c) (
          ground (
            arith,
            nat_eq.beq_iff u (linked_id entity c),
            nat_eq.beq_iff (linked_id entity c) u,
            away,
          ))
        ∙ free.0,
    still_free u calls done next step (ground (arith, away)) free.1,
  )

  call_outcome-Settled :
      (i : ℕ) (calls : List (Row × ℕ)) (done : InsertOutcome)
      → All IsReady calls
      → Right id_of done.assigned × Right id_of done.existing
      → Distinct (map (linked_id entity) calls)
      → All (λ c. lookup (linked_id entity c) done.assigned ≡ none) calls
      → (next : InsertOutcome) × (call_outcome entity proposed by.written by.already i calls done
          ≡ ok next)
        × Settled calls done next
  unfolding call_outcome
  call_outcome-Settled i [] done ready both distinct free = (
    done,
    refl,
    record { right = both; here = tt; kept = λ w k. k; counted = omega arith; missing = refl },
  )
  call_outcome-Settled i (call ∷ calls) done ready both distinct free =
      let (middle, ran, step) = settle_call-Step i call done ready.0 both in
      let (next, rest, all) =
        call_outcome-Settled (suc i) calls middle ready.1 step.right distinct.1
          (still_free (linked_id entity call) calls done middle step distinct.0 free.1) in
      (
        next,
        rw ran rest,
        record {
          right = all.right;
          here = (all.kept (linked_id entity call) step.here, all.here);
          kept = λ w k. all.kept w (step.kept w k);
          counted = omega (arith, all.counted, step.counted free.0);
          missing = all.missing ∙ step.missing;
        },
      )

  settled_calls :
      (calls : List (Row × ℕ)) (next : InsertOutcome)
      → Right id_of next.assigned × Right id_of next.existing
      → All IsReady calls
      → All (λ c. known next (linked_id entity c) ≡ true) calls
      → CallsHeld entity by.after calls next
  settled_calls [] next both ready here = tt
  settled_calls (call ∷ calls) next both ready here =
      let (offered, (r, found, held), same) = ready.0 in
      let mine = stored_id-some (call_key entity call) by.after.rows found in
      (
        (
          r.id,
          lookup-ids id_of next (linked_id entity call) both.0 both.1 here.0
              ∙ ap (λ k. stored_id k by.after.rows) (sym same)
              ∙ mine,
          mine,
        ),
        settled_calls calls next both ready.1 here.1,
      )

module _ {Row : Type 0} (entity : CallEntity Row) where
  -- Every row is linked or unlinked.
  link_to_sessions-count :
      (rows : List Row) (session_ids : Dict ℕ ℕ)
      → length (link_to_sessions entity rows session_ids).0
          + length (link_to_sessions entity rows session_ids).1
        ≡ length rows
  unfolding link_to_sessions
  link_to_sessions-count [] session_ids = refl
  link_to_sessions-count (row ∷ rows) session_ids =
      elim (Option-cases (lookup (entity.session_of row) session_ids)) [
        | inl missing ↦
            rw (missing, link_to_sessions) (omega (arith, link_to_sessions-count rows session_ids))
        | inr (sid, is) ↦
            rw (is, link_to_sessions) (omega (arith, link_to_sessions-count rows session_ids))
      ]

  link_to_sessions-fresh :
      (u : ℕ) (rows : List Row) (session_ids : Dict ℕ ℕ)
      → contains u (map entity.entity_id rows) ≡ false
      → contains u (map (linked_id entity) (link_to_sessions entity rows session_ids).0) ≡ false
  unfolding link_to_sessions
  link_to_sessions-fresh u [] session_ids away = refl
  link_to_sessions-fresh u (row ∷ rows) session_ids away =
      elim (Option-cases (lookup (entity.session_of row) session_ids)) [
        | inl missing ↦
            rw (missing, link_to_sessions)
              (link_to_sessions-fresh u rows session_ids (ground (arith, away)))
        | inr (sid, is) ↦
            rw (is, link_to_sessions)
              (ground (arith, away, link_to_sessions-fresh u rows session_ids))
      ]

  link_to_sessions-Distinct :
      (rows : List Row) (session_ids : Dict ℕ ℕ)
      → Distinct (map entity.entity_id rows)
      → Distinct (map (linked_id entity) (link_to_sessions entity rows session_ids).0)
  unfolding link_to_sessions
  link_to_sessions-Distinct [] session_ids h = tt
  link_to_sessions-Distinct (row ∷ rows) session_ids h =
      elim (Option-cases (lookup (entity.session_of row) session_ids)) [
        | inl missing ↦
            rw (missing, link_to_sessions) (link_to_sessions-Distinct rows session_ids h.1)
        | inr (sid, is) ↦
            rw (is, link_to_sessions)
              (
                link_to_sessions-fresh (entity.entity_id row) rows session_ids h.0,
                link_to_sessions-Distinct rows session_ids h.1,
              )
      ]

  module _ {V : Type 0} (columns : Row × ℕ → V) (width : ℕ) where
    -- The calls are stored: each linked call has the id of its key, and every call is counted once,
    -- in the result of an insertion.
    abbrev pub Stored : List Row → Dict ℕ ℕ → Run (InsertOutcome × Table CallKey V) → Type 0
    Stored rows session_ids result =
        (outcome : InsertOutcome) × (after : Table CallKey V) × (result ≡ ok (outcome, after))
        × IsValid after
        × CallsHeld entity after (link_to_sessions entity rows session_ids).0 outcome
        × (inserted_count outcome + duplicate_count outcome + length outcome.unlinked ≡ length rows)

    -- What an insertion of calls promises.
    abbrev pub Accounted : Constraints CallKey V → List Row → Dict ℕ ℕ → Table CallKey V → Type 0
    Accounted constraints rows session_ids t =
        let linked = (link_to_sessions entity rows session_ids).0 in
        let fits = All (Admitted constraints t) (call_values entity columns width linked) in
        let result = add_calls entity columns width constraints rows session_ids t in
        (fits × Stored rows session_ids result) ⊎ (¬ fits × (result ≡ err database_error))

    add_linked-Accounted :
        (linked : List (Row × ℕ)) (unlinked : List ℕ) (t : Table CallKey V)
        → IsWidth width
        → IsValid t
        → Distinct (map (linked_id entity) linked)
        → (outcome : InsertOutcome) × (after : Table CallKey V) × (add_linked entity columns width
              linked unlinked t
            ≡ ok (outcome, after))
          × IsValid after
          × CallsHeld entity after linked outcome
          × (total outcome ≡ length linked)
          × (outcome.unlinked ≡ unlinked)
    add_linked-Accounted [] unlinked t w valid distinct =
        (empty_outcome unlinked, t, refl, valid, tt, refl, refl)
    add_linked-Accounted (call ∷ calls) unlinked t w valid distinct =
        let all = call ∷ calls in
        let done = reconcile (call_key entity) columns row_id width all t in
        let (natural, named) =
          Distinct-determines (linked_id entity) (call_key entity) (0, pos 0) all distinct in
        let ready =
          calls-IsReady entity columns t (candidates (call_key entity) all) done natural all
            (candidates-all (call_key entity) all)
            (reconcile-Held (call_key entity) columns row_id width all t w valid) named in
        let (outcome, ran, settled) =
          call_outcome-Settled entity columns t (candidates (call_key entity) all) done natural 0
            all (empty_outcome unlinked) ready (tt, tt) distinct (none_assigned all) in
        (
          outcome,
          done.after,
          rw ran refl,
          reconcile-IsValid (call_key entity) columns row_id width all t w valid,
          settled_calls entity columns t (candidates (call_key entity) all) done natural all outcome
              settled.right ready settled.here,
          omega (arith, settled.counted),
          settled.missing,
        )

    store_calls-Stored :
        (rows : List Row) (session_ids : Dict ℕ ℕ) (t : Table CallKey V)
        → IsWidth width
        → IsValid t
        → Distinct (map entity.entity_id rows)
        → Stored rows session_ids (store_calls entity columns width rows session_ids t)
    unfolding store_calls
    store_calls-Stored rows session_ids t w valid distinct =
        let parts = link_to_sessions entity rows session_ids in
        let (outcome, after, ran, kept, held, counted, missing) =
          add_linked-Accounted parts.0 parts.1 t w valid
            (link_to_sessions-Distinct rows session_ids distinct) in
        (
          outcome,
          after,
          ran,
          kept,
          held,
          omega (arith, counted, ap length missing, link_to_sessions-count rows session_ids),
        )

    -- An insertion of calls with distinct entities into a valid table raises the database's error
    -- exactly if a row that is to be inserted violates a constraint of the table. Otherwise it
    -- leaves a valid table, in which each linked call has the id of its key, and each call is
    -- counted once: inserted, a duplicate, or unlinked.
    pub add_calls-Accounted :
        (constraints : Constraints CallKey V) (rows : List Row) (session_ids : Dict ℕ ℕ)
        (t : Table CallKey V)
        → IsWidth width
        → IsValid t
        → Distinct (map entity.entity_id rows)
        → Accounted constraints rows session_ids t
    unfolding add_calls
    add_calls-Accounted constraints rows session_ids t w valid distinct =
        let linked = (link_to_sessions entity rows session_ids).0 in
        let offered = call_values entity columns width linked in
        let fits = admitted-Admitted constraints t offered in
        elim (Bool-cases (admitted constraints t offered)) [
          | inl e ↦
              let (outcome, after, ran, kept, held, counted) =
                store_calls-Stored rows session_ids t w valid distinct in
              inl (fits.0 e, (outcome, after, rw e ran, kept, held, counted))
          | inr e ↦ inr (λ all. cc (fits.1 all, e), rw e refl)
        ]
