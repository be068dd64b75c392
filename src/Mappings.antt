-- ===== src/Mappings.antt =====
-- src/agentlen/application/use_cases/save_mapping.py over the table of mappings
-- (src/agentlen/infrastructure/persistence/repositories/sql.py): a mapping is created, or a version is
-- added to it. One request runs at a time; the texts and details of the refusals are left out.
pub mod Versions
use agent_len.Base.{
  require, ensure, ℕ, suc, ◌+◌, String, Bool, true, false, not, ◌&&◌, ◌||◌, Option, none, some,
  List, [], ◌∷◌, ◌++◌, map,
}
use agent_len.Base.{
  Result, ok, err, ◌>>=◌, ◌>>◌, ltb, ◌==◌, nat_eq, string_eq, contains, take, if◌then◌else◌,
}
use agent_len.Mapping.{Mapping, EntityMapping}
use agent_len.Python.{Python, Exc}
use agent_len.Engine.Operators.{Run}
use agent_len.Validator.{ValidationError, validate}

-- A row of `mapping`. The entities are its document.
pub record StoredMapping : Type 0 where
  pub id : ℕ
  pub data_source_id : ℕ
  pub name : String
  pub version : ℕ
  pub source_format : String
  pub entities : List EntityMapping
  pub status : String

pub record Library : Type 0 where
  pub data_sources : List ℕ
  pub mappings : List StoredMapping
  pub next_id : ℕ

pub data SaveRefusal : Type 0 where
  unknown_source unknown_mapping name_taken source_changed : SaveRefusal
  replaced_by : ℕ → SaveRefusal
  invalid : List ValidationError → SaveRefusal
  raised : Exc → SaveRefusal

abbrev pub Saving : Type 0 → Type 0
Saving = Result SaveRefusal

abbrev pub without_errors : Run (List ValidationError) → Saving (Unit {0})
without_errors (ok []) = ok tt
without_errors (ok (e ∷ errors)) = err (invalid (e ∷ errors))
without_errors (err e) = err (raised e)

-- `_validate`
unfoldable pub check_valid : Python → Mapping → Saving (Unit {0})
check_valid py mapping = without_errors (validate py mapping)

abbrev pub has_key : ℕ → String → StoredMapping → Bool
has_key source name r = r.data_source_id == source && r.name == name

-- `list_records` for a source, the newest first. The table stands in the order of the ids.
unfoldable pub newest_first : ℕ → List StoredMapping → List StoredMapping
newest_first source [] = []
newest_first source (r ∷ rows) =
    let rest = newest_first source rows in
    if r.data_source_id == source then rest ++ r ∷ [] else rest

abbrev pub any_named : String → List StoredMapping → Bool
any_named name [] = false
any_named name (r ∷ rows) = r.name == name || any_named name rows

abbrev pub listed_limit : ℕ
listed_limit = 1_000

abbrev pub find_stored : ℕ → List StoredMapping → Option StoredMapping
find_stored id [] = none
find_stored id (r ∷ rows) = if r.id == id then some r else find_stored id rows

abbrev pub higher : ℕ → Option ℕ → ℕ
higher n none = n
higher n (some m) = if ltb n m then m else n

-- `SELECT max(version) ... WHERE data_source_id = ... AND name = ...`
unfoldable pub latest_version : ℕ → String → List StoredMapping → Option ℕ
latest_version source name [] = none
latest_version source name (r ∷ rows) =
    let rest = latest_version source name rows in
    if has_key source name r then some (higher r.version rest) else rest

abbrev pub mark : ℕ → StoredMapping → StoredMapping
mark id r = if r.id == id then record r { status = "superseded" } else r

-- `UPDATE mapping SET status = 'superseded' WHERE id = ...`
abbrev pub supersede : ℕ → List StoredMapping → List StoredMapping
supersede id = map (mark id)

abbrev pub stored : ℕ → Mapping → ℕ → StoredMapping
stored id mapping source = record {
  id = id;
  data_source_id = source;
  name = mapping.name;
  version = mapping.version;
  source_format = mapping.source_format;
  entities = mapping.entities;
  status = "active";
}

-- `SqlAlchemyMappingRepository.save`
abbrev pub save : Mapping → ℕ → List StoredMapping → Library → ℕ × Library
save mapping source rows lib = (
  lib.next_id,
  record lib {
    mappings = rows ++ stored lib.next_id mapping source ∷ [];
    next_id = suc lib.next_id;
  },
)

-- The source of a new mapping, if it is given and known.
abbrev pub known_source : Option ℕ → Library → Saving ℕ
known_source none lib = err unknown_source
known_source (some source) lib =
    if contains source lib.data_sources then ok source else err unknown_source

-- `execute` without a previous mapping.
unfoldable pub create_mapping : Python → Mapping → Option ℕ → Library → Saving (ℕ × Library)
unfolding check_valid newest_first
create_mapping py mapping given lib = do
  check_valid py mapping
  source ← known_source given lib
  ensure (not (any_named mapping.name (take listed_limit (newest_first source lib.mappings))))
      name_taken
  ok (save mapping source lib.mappings lib)

abbrev pub same_source : Option ℕ → ℕ → Bool
same_source none current = true
same_source (some source) current = source == current

abbrev pub check_latest : ℕ → Option ℕ → Saving (Unit {0})
check_latest version none = ok tt
check_latest version (some latest) = if latest == version then ok tt else err (replaced_by latest)

abbrev pub next_mapping : Mapping → StoredMapping → Mapping
next_mapping mapping current = record mapping { name = current.name; version = current.version + 1 }

-- `execute` on a previous mapping.
unfoldable pub add_version : Python → Mapping → Option ℕ → ℕ → Library → Saving (ℕ × Library)
unfolding check_valid latest_version
add_version py mapping given previous lib = do
  current ← require unknown_mapping (find_stored previous lib.mappings)
  ensure (same_source given current.data_source_id) source_changed
  check_latest current.version (latest_version current.data_source_id current.name lib.mappings)
  check_valid py (next_mapping mapping current)
  ok (
      save (next_mapping mapping current) current.data_source_id (supersede previous lib.mappings)
        lib)

-- `SaveMapping.execute`
unfoldable pub save_mapping :
    Python → Mapping → Option ℕ → Option ℕ → Library → Saving (ℕ × Library)
unfolding create_mapping add_version
save_mapping py mapping given none lib = create_mapping py mapping given lib
save_mapping py mapping given (some previous) lib = add_version py mapping given previous lib
