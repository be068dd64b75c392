-- ===== src/Jobs.antt =====
-- The rows of `import_run` and the queue over them: src/agentlen/infrastructure/jobs/postgres_queue.py.
-- Each SQL statement is a function on the table, whose rows stand in the order of the database.
pub mod Worker
pub mod Claim
pub mod Drain
pub mod Summary
use agent_len.Base.{
  ℕ, zero, suc, ◌+◌, String, Bool, true, false, not, ◌&&◌, Option, none, some, List, [], ◌∷◌, map,
}
use agent_len.Base.{ltb, ◌==◌, nat_eq, contains, if◌then◌else◌}

pub data Status : Type 0 where
  pending running succeeded partial failed cancelled : Status

-- The columns of `import_run` but for the counters of its report and `fields_missing`.
pub record ImportRun : Type 0 where
  pub id : ℕ
  pub data_source_id : ℕ
  pub file_upload_id : ℕ
  pub mapping_id : ℕ
  pub status : Status
  pub created_at : ℕ
  pub locked_at : Option ℕ
  pub locked_by : Option String
  pub started_at : Option ℕ
  pub finished_at : Option ℕ
  pub attempts : ℕ
  pub error_summary : Option String

abbrev pub is_pending : Status → Bool
is_pending pending = true
is_pending _ = false

-- `UPDATE import_run SET ... WHERE id = :import_run_id`
abbrev pub update : ℕ → (ImportRun → ImportRun) → List ImportRun → List ImportRun
update id change = map (λ r. if r.id == id then change r else r)

abbrev pub find_run : ℕ → List ImportRun → Option ImportRun
find_run id [] = none
find_run id (r ∷ runs) = if r.id == id then some r else find_run id runs

-- A candidate of the inner SELECT: pending, and not locked by another transaction.
abbrev pub available : List ℕ → ImportRun → Bool
available held r = is_pending r.status && not (contains r.id held)

abbrev pub earlier : ImportRun → Option ImportRun → Option ImportRun
earlier r none = some r
earlier r (some s) = if ltb s.created_at r.created_at then some s else some r

-- `SELECT id ... WHERE status = 'pending' ORDER BY created_at FOR UPDATE SKIP LOCKED LIMIT 1`
unfoldable pub next_pending : List ℕ → List ImportRun → Option ImportRun
next_pending held [] = none
next_pending held (r ∷ runs) =
    let best = next_pending held runs in if available held r then earlier r best else best

abbrev pub or_now : Option ℕ → ℕ → Option ℕ
or_now none now = some now
or_now (some t) now = some t

abbrev pub start_run : String → ℕ → ImportRun → ImportRun
start_run worker now r = record r {
  status = running;
  locked_at = some now;
  locked_by = some worker;
  started_at = or_now r.started_at now;
  attempts = r.attempts + 1;
}

-- `_CLAIM`, with the rows that other transactions hold locked.
unfoldable pub claim_next : String → ℕ → List ℕ → List ImportRun → Option ℕ × List ImportRun
unfolding next_pending
claim_next worker now held runs = elim (next_pending held runs) [
  | none ↦ (none, runs)
  | some r ↦ (some r.id, update r.id (start_run worker now) runs)
]

-- `_ENQUEUE`
unfoldable pub enqueue : ℕ → List ImportRun → List ImportRun
enqueue id = update id (λ r. record r { status = pending; locked_at = none; locked_by = none })

-- `_SUCCEED`
unfoldable pub mark_succeeded : ℕ → Status → ℕ → List ImportRun → List ImportRun
mark_succeeded id status now =
    update id (λ r. record r {
      status = status;
      locked_at = none;
      locked_by = none;
      finished_at = some now;
    })

-- `error[:n]`
abbrev pub first_chars : ℕ → String → String
first_chars zero s = String.[]
first_chars (suc n) String.[] = String.[]
first_chars (suc n) (String.◌∷◌ c s) = String.◌∷◌ c (first_chars n s)

abbrev pub error_length : ℕ
error_length = 2000

-- `mark_failed` and `_FAIL`
unfoldable pub mark_failed : ℕ → String → ℕ → List ImportRun → List ImportRun
mark_failed id error now = update id (λ r. record r {
  status = failed;
  locked_at = none;
  locked_by = none;
  finished_at = some now;
  error_summary = some (first_chars error_length error);
})
