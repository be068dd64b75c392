-- ===== src/Examples/Queue.antt =====
-- A queue of three runs, and a worker on it.
use agent_len.Base.{
  ℕ, ◌≤◌, ◌≡◌, ◌≢◌, ◌⊎◌, refl, true, false, none, some, List, [], ◌∷◌, arith, length, ◌==◌, nat_eq,
  if◌then◌else◌,
}
use agent_len.Jobs.{Status, pending, failed, ImportRun, update, start_run, claim_next}
use agent_len.Jobs.Worker.{Ending, reported, interrupted, Importer, World, drain}
use agent_len.Base.{inl, inr, Bool-cases}
use agent_len.Jobs.Summary.{
  Raised, nothing, raised, failure_names, max_cause_depth, NoRepeat, failure_names-fit,
}
use agent_len.Jobs.Claim.{IsNext, NothingIn, claim_next-IsNext, claim_next-exclusive}
use agent_len.Jobs.Drain.{Emptied, count_pending, drain-empties}

abbrev run_at : ℕ → Status → ℕ → ImportRun
run_at id status created_at = record {
  id = id;
  data_source_id = 7;
  file_upload_id = 1;
  mapping_id = 1;
  status = status;
  created_at = created_at;
  locked_at = none;
  locked_by = none;
  started_at = none;
  finished_at = none;
  attempts = 0;
  error_summary = none;
}

abbrev queue : List ImportRun
queue = run_at 1 pending 20 ∷ run_at 2 failed 5 ∷ run_at 3 pending 10 ∷ []

-- Reads every file but the third.
abbrev importer : Importer
importer id runs = (
  if id == 3
      then Ending.failed (raised "ReadError" (raised "OSError" nothing false nothing) false nothing)
      else reported 0,
  runs,
)

abbrev world : World
world = record { runs = queue; clock = 30; stopping = false; processed = 0 }

claim_next-IsNext_example :
    ((claim_next "w" 30 (1 ∷ []) queue ≡ (none, queue)) × NothingIn (1 ∷ []) queue)
    ⊎ ((r : ImportRun) × IsNext (1 ∷ []) queue r
        × (claim_next "w" 30 (1 ∷ []) queue ≡ (some r.id, update r.id (start_run "w" 30) queue)))
claim_next-IsNext_example = claim_next-IsNext "w" 30 (1 ∷ []) queue

first_claim : (claim_next "a" 30 [] queue).0 ≡ some 3
unfolding claim_next
first_claim = refl

second_claim : (claim_next "b" 31 [] (claim_next "a" 30 [] queue).1).0 ≡ some 1
unfolding claim_next
second_claim = refl

claim_next-exclusive_example : ◌≢◌ {A = ℕ} 3 1
claim_next-exclusive_example =
    claim_next-exclusive "a" "b" 30 31 [] [] queue 3 1 first_claim second_claim

importer-keeps :
    (id : ℕ) (runs : List ImportRun) → count_pending (importer id runs).1 ≤ count_pending runs
importer-keeps id runs = ground arith

importer-whole : (id : ℕ) (runs : List ImportRun) → (importer id runs).0 ≢ interrupted
importer-whole id runs = elim (Bool-cases (id == 3)) [
  | inl e ↦ rw e (λ is. cc is)
  | inr e ↦ rw e (λ is. cc is)
]

drain-empties_example : Emptied (1 ∷ []) (drain "a" importer (1 ∷ []) 3 world).runs
drain-empties_example =
    drain-empties "a" importer (1 ∷ []) importer-whole importer-keeps 3 world (omega arith) refl

abbrev failure : Raised
failure =
    raised "ReadError" (raised "ReadError" nothing false (raised "OSError" nothing true nothing))
      false nothing

failure_names-fit_example :
    (length (failure_names failure) ≤ max_cause_depth) × NoRepeat (failure_names failure)
failure_names-fit_example = failure_names-fit failure
