-- ===== src/Jobs/Worker.antt =====
-- src/agentlen/infrastructure/jobs/worker.py: claim a run, import it, release it. The importer is an
-- argument: it may change the table, and it returns a report, raises or is interrupted.
use agent_len.Base.{ℕ, zero, suc, ◌+◌, String, Bool, true, Option, none, some, List}
use agent_len.Base.{nat_eq, if◌then◌else◌}
use agent_len.Jobs.{Status, succeeded, partial, ImportRun, claim_next, mark_succeeded, mark_failed}
use agent_len.Jobs.Summary.{Raised, failure_summary}

-- How the importer ends: it returns a report with a number of rejected records, raises an
-- exception, or is interrupted by a `CancelledError`, a `KeyboardInterrupt` or whatever else is no
-- `Exception`.
pub data Ending : Type 0 where
  reported : ℕ → Ending
  failed : Raised → Ending
  interrupted : Ending

abbrev pub Importer : Type 0
Importer = ℕ → List ImportRun → Ending × List ImportRun

-- What `run_once` does: it returns False or True, or lets an interruption through.
pub data Turn : Type 0 where
  idle worked broken : Turn

-- The worker's own state, with the table and the clock.
pub record World : Type 0 where
  pub runs : List ImportRun
  pub clock : ℕ
  pub stopping : Bool
  pub processed : ℕ

-- `"partial" if getattr(report, "records_rejected", 0) else "succeeded"`
abbrev pub final_status : ℕ → Status
final_status zero = succeeded
final_status (suc n) = partial

-- The handler is for `Exception` and the `finally` for all: an interrupted run stays as it is. The
-- statements of the queue raise nothing.
abbrev pub released : ℕ → World → Ending × List ImportRun → Turn × World
released id w (reported rejected, runs) = (
  worked,
  record w {
    runs = mark_succeeded id (final_status rejected) w.clock runs;
    processed = w.processed + 1;
  },
)
released id w (failed e, runs) = (
  worked,
  record w {
    runs = mark_failed id (failure_summary id e) w.clock runs;
    processed = w.processed + 1;
  },
)
released id w (interrupted, runs) = (broken, record w { runs = runs; processed = w.processed + 1 })

module _ (worker : String) (importer : Importer) where
  abbrev pub claimed : World → Option ℕ × List ImportRun → Turn × World
  claimed w (none, runs) = (idle, record w { runs = runs })
  claimed w (some id, runs) = released id w (importer id runs)

  -- `run_once`, while other transactions hold the rows `held`.
  unfoldable pub run_once : List ℕ → World → Turn × World
  unfolding claim_next mark_succeeded mark_failed failure_summary
  run_once held w = claimed w (claim_next worker w.clock held w.runs)

  abbrev pub request_stop : World → World
  request_stop w = record w { stopping = true }

  -- `run_forever(stop_when_idle=True)`, one round for each unit of fuel, while other transactions
  -- hold the rows `held`.
  unfoldable pub drain : List ℕ → ℕ → World → World
  drain held zero w = w
  drain held (suc fuel) w =
      let step = run_once held w in
      let more = drain held fuel step.1 in
      if w.stopping then w else elim step.0 [ idle ↦ step.1 | worked ↦ more | broken ↦ step.1 ]
