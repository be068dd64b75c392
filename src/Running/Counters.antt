-- ===== src/Running/Counters.antt =====
-- The totals of a run, in src/agentlen/application/use_cases/run_import.py, and the report of
-- src/agentlen/domain/model/import_run.py. `fields_missing` is counted and then dropped: no report
-- and no statement reads it, and it is left out.
use agent_len.Base.{ℕ, ◌||◌, Option, none, some, List, [], ◌∷◌}
use agent_len.Base.{String, nat_eq, ltb, contains, if◌then◌else◌}
use agent_len.Mapping.{ImportIssue, is_rejected}

-- `duplicate_sessions` is a set, as a list without repetitions.
pub record Counters : Type 0 where
  pub read : ℕ
  pub imported : ℕ
  pub duplicate : ℕ
  pub rejected : ℕ
  pub duplicate_sessions : List ℕ

abbrev pub new_counters : Counters
new_counters = record {
  read = 0;
  imported = 0;
  duplicate = 0;
  rejected = 0;
  duplicate_sessions = [];
}

pub record ImportReport : Type 0 where
  pub records_read : ℕ
  pub records_imported : ℕ
  pub records_duplicate : ℕ
  pub records_rejected : ℕ
  pub issues : List ImportIssue

unfoldable pub to_report : Counters → List ImportIssue → ImportReport
to_report c issues = record {
  records_read = c.read;
  records_imported = c.imported;
  records_duplicate = c.duplicate;
  records_rejected = c.rejected;
  issues = issues;
}

-- `_Counters.status`
unfoldable pub run_status : Counters → String
run_status c = if ltb 0 c.rejected then "partial" else "succeeded"

-- `{...} - seen`, the members of a set that another does not have.
unfoldable pub fresh : List ℕ → List ℕ → List ℕ
fresh [] seen = []
fresh (x ∷ xs) seen =
    let rest = fresh xs seen in if contains x seen || contains x rest then rest else x ∷ rest

abbrev pub with_line : Option ℕ → List ℕ → List ℕ
with_line none lines = lines
with_line (some n) lines = n ∷ lines

-- The lines of the issues that reject, without `None`.
unfoldable pub rejected_lines : List ImportIssue → List ℕ
rejected_lines [] = []
rejected_lines (i ∷ issues) =
    let rest = rejected_lines issues in
    if is_rejected i.severity then with_line i.line_number rest else rest
