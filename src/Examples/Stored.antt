-- ===== src/Examples/Stored.antt =====
-- Sessions and calls inserted into small tables, and proposed_names resolved.
use agent_len.Base.{ℕ, String, ◌≡◌, refl, none, List, [], ◌∷◌, ok}
use agent_len.Base.{All, arith, nat_eq, pair_eq, int_eq, string_eq}
use agent_len.Normalizer.Entities.{model}
use agent_len.Base.{err, Bool, true, false, pos, ltb, ◌⊎◌}
use agent_len.Python.{database_error}
use agent_len.Json.{Value, str, int, datetime}
use agent_len.Storage.Constraints.{
  ColumnType, text_column, timestamp_column, bigint_column, integer_column, Server, Referents,
  Constraints, Admitted,
}
use agent_len.Storage.Sessions.{SessionKey, SessionColumns, session_constraints, session_values}
use agent_len.Storage.Calls.{CallKey, ToolCallColumns, tool_constraints}
use agent_len.Storage.Table.{Table, find, IsValid, insert_values}
use agent_len.Storage.Slices.{slices, insert_many, concat, FitsOne, slices-Fits}
use agent_len.Storage.Slices.{insert_many-insert_values}
use agent_len.Storage.Outcome.{InsertOutcome, inserted_count}
use agent_len.Storage.Sessions.{SessionRow, SessionTable, session_columns, add_sessions}
use agent_len.Storage.Sessions.Settled.{SessionsHeld, add_sessions-SessionsHeld}
use agent_len.Storage.Sessions.Repeated.{add_sessions-stored}
use agent_len.Storage.Calls.{ToolCallRow, ToolCallTable, tool_entity, tool_columns, tool_call_width}
use agent_len.Storage.Calls.Accounted.{Accounted, add_calls-Accounted}
use agent_len.Storage.Referentials.{Referentials, resolve}
use agent_len.Storage.Referentials.Total.{ValidReferentials, Resolved, resolve-Resolved}
use agent_len.Examples.Sessions.{session, grep}

abbrev three : List ℕ
three = 1 ∷ 2 ∷ 3 ∷ []

slices-Fits_example :
    (concat (slices three 20000) ≡ three) × All (FitsOne 20000) (slices three 20000)
slices-Fits_example = slices-Fits three 20000 (omega arith) (omega arith)

abbrev pub no_names : Table String (Unit {0})
no_names = record { next_id = 1; rows = [] }

abbrev proposed_names : List (String × Unit {0})
proposed_names = ("a", tt) ∷ ("b", tt) ∷ ("a", tt) ∷ []

insert_many-insert_values_example :
    insert_many 20000 proposed_names no_names ≡ insert_values proposed_names no_names
insert_many-insert_values_example =
    insert_many-insert_values 20000 proposed_names no_names (omega arith) (omega arith)

-- A server whose columns take values of their types in their ranges.
abbrev accepts : ColumnType → Value → Bool
accepts text_column (str s) = true
accepts timestamp_column (datetime t z) = true
accepts bigint_column (int (pos n)) = ltb n 9_223_372_036_854_775_808
accepts integer_column (int (pos n)) = ltb n 2_147_483_648
accepts type v = false

abbrev pub server : Server
server = record { accepts = accepts; data_sources = 7 ∷ []; import_runs = 4 ∷ 5 ∷ [] }

abbrev held : Referents
held = record {
  raw_records = 1 ∷ 2 ∷ [];
  agents = [];
  repositories = [];
  models = [];
  tools = 3 ∷ [];
  sessions = 1 ∷ [];
}

abbrev on_sessions : Constraints SessionKey SessionColumns
on_sessions = session_constraints server held

abbrev on_calls : Constraints CallKey ToolCallColumns
on_calls = tool_constraints server held

abbrev row : SessionRow
row = record {
  entity = session;
  import_run_id = 4;
  raw_record_id = 1;
  agent_id = none;
  repository_id = none;
}

-- The same session again, on another line.
abbrev again : SessionRow
again = record {
  entity = record session { id = 20 };
  import_run_id = 4;
  raw_record_id = 2;
  agent_id = none;
  repository_id = none;
}

abbrev pub no_sessions : SessionTable
no_sessions = record { next_id = 1; rows = [] }

add_sessions-SessionsHeld_example :
    (All (Admitted on_sessions no_sessions) (session_values (row ∷ again ∷ []))
      × ((outcome : InsertOutcome) × (after : SessionTable) × (add_sessions on_sessions
              (row ∷ again ∷ [])
              no_sessions
            ≡ ok (outcome, after))
          × IsValid after
          × SessionsHeld after (row ∷ again ∷ []) outcome))
    ⊎ (¬ All (Admitted on_sessions no_sessions) (session_values (row ∷ again ∷ []))
        × (add_sessions on_sessions (row ∷ again ∷ []) no_sessions ≡ err database_error))
add_sessions-SessionsHeld_example =
    add_sessions-SessionsHeld on_sessions (row ∷ again ∷ []) no_sessions (tt, tt)
      ((refl, (refl, tt)))

abbrev one_session : SessionTable
one_session = record {
  next_id = 2;
  rows = record { id = 1; key = (7, "s1"); value = session_columns row } ∷ [];
}

abbrev later : SessionRow
later = record row { import_run_id = 5 }

abbrev after_later : SessionTable
after_later = record one_session { next_id = 3 }

abbrev met : InsertOutcome
met = record { assigned = []; existing = (10, 1) ∷ []; duplicates = 10 ∷ []; unlinked = [] }

reimported : add_sessions on_sessions (later ∷ []) one_session ≡ ok (met, after_later)
unfolding add_sessions
reimported = refl

add_sessions-stored_example : (inserted_count met ≡ 0) × (after_later.rows ≡ one_session.rows)
unfolding find
add_sessions-stored_example =
    add_sessions-stored on_sessions (later ∷ []) one_session (refl, tt) reimported

abbrev call : ToolCallRow
call = record { entity = grep; raw_record_id = 1; tool_id = 3 }

abbrev repeated : ToolCallRow
repeated = record call { entity = record grep { id = 30 } }

abbrev orphan : ToolCallRow
orphan = record call { entity = record grep { id = 31; session_id = 99 } }

abbrev pub no_tool_calls : ToolCallTable
no_tool_calls = record { next_id = 1; rows = [] }

add_calls-Accounted_example :
    Accounted tool_entity tool_columns tool_call_width on_calls
      (call ∷ repeated ∷ orphan ∷ [])
      ((10, 1) ∷ [])
      no_tool_calls
add_calls-Accounted_example =
    add_calls-Accounted tool_entity tool_columns tool_call_width on_calls
      (call ∷ repeated ∷ orphan ∷ []) ((10, 1) ∷ []) no_tool_calls (omega arith, omega arith)
      (tt, tt) (refl, (refl, (refl, tt)))

abbrev pub no_referentials : Referentials
no_referentials = record {
  providers = no_names;
  models = record { next_id = 1; rows = [] };
  agents = record { next_id = 1; rows = [] };
  tools = no_names;
  repositories = record { next_id = 1; rows = [] };
}

pub none_valid : ValidReferentials no_referentials
none_valid = record {
  providers = (tt, tt);
  models = (tt, tt);
  agents = (tt, tt);
  tools = (tt, tt);
  repositories = (tt, tt);
}

resolve-Resolved_example :
    (id : ℕ) × (after : Referentials) × (resolve model "m"
        (("provider_name", "p") ∷ [])
        no_referentials
      ≡ ok (id, after))
    × Resolved model "m" (("provider_name", "p") ∷ []) no_referentials id after
resolve-Resolved_example =
    resolve-Resolved model "m" (("provider_name", "p") ∷ []) no_referentials none_valid
