-- ===== src/Examples/Requests.antt =====
-- A request for an import.
use agent_len.Base.{◌≡◌, refl, [], ◌∷◌, ok, arith, ◌++◌}
use agent_len.Jobs.{failed}
use agent_len.Imports.Create.{Tables, create_import, new_run}
use agent_len.Imports.Create.Guarded.{IsSound, Accepted, create_import-IsSound}

abbrev tables : Tables
tables = record {
  data_sources = 7 ∷ [];
  file_uploads = record { id = 1; format = "jsonl"; content_hash = "ab" } ∷ [];
  mappings =
      record {
        id = 2;
        data_source_id = 7;
        name = "sessions";
        version = 1;
        source_format = "jsonl";
        status = "active";
      }
      ∷ [];
  runs = record (new_run 1 7 1 2 10) { status = failed } ∷ [];
  next_run_id = 2;
}

abbrev later : Tables
later = record tables { runs = tables.runs ++ new_run 2 7 1 2 20 ∷ []; next_run_id = 3 }

tables-IsSound : IsSound tables
tables-IsSound = record { below = (omega arith, tt); distinct = (tt, tt); no_twins = (tt, tt) }

created : create_import 7 1 2 20 tables ≡ ok (2, later)
unfolding create_import
created = refl

create_import-IsSound_example : Accepted 7 1 2 tables × IsSound later
create_import-IsSound_example = create_import-IsSound 7 1 2 20 tables tables-IsSound created
