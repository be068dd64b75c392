-- ===== src/Lib.antt =====
-- AgentLen reads traces of AI agents, transforms them by a mapping that a person has accepted, and
-- stores sessions, model calls and tool calls. This library models the path of a record through the
-- program, and the queue of the imports. Paths of files are from the repository's root.
--
-- The parts and their files:
-- - JsonPath: src/agentlen/domain/services/json_path.py, the notation of paths. `parse_path` walks
--   the text by characters; its loop has the number of characters as fuel, since each round takes
--   one or more. JsonPath/Resolve has `iterate_path`, `source_path`, `resolve` and `resolve_rows`.
--   JsonPath/Print is how src/agentlen/infrastructure/files/polars_profiler.py writes a path.
-- - Json and Mapping: the Python values of a record, and the mapping documents and target schema of
--   src/agentlen/domain/model (mapping.py, target_schema.py, import_run.py).
-- - Python: what the engine calls of Python's standard library, an argument of the definitions: texts
--   of values, number conversions, dates, JSON, SHA-256, regular expressions. Nothing is assumed of it.
-- - Engine: src/agentlen/domain/services/transformation_engine.py. Engine/Operators has one function for
--   each operator, Engine/Coerce the target types, Engine the fields, entities, rows and `apply`.
-- - Validator: src/agentlen/domain/services/mapping_validator.py. `validate` and its steps return the
--   errors with their code and place; Validator/Operators is the table of the operators' checks.
-- - Normalizer: src/agentlen/domain/services/record_normalizer.py, which calls the engine and links what
--   it returns. Normalizer/Entities has the constructors of the entities in src/agentlen/domain/model.
-- - Jobs: src/agentlen/infrastructure/jobs/postgres_queue.py, each SQL statement as a function on the table
--   of runs. Jobs/Worker is worker.py: `run_once`, and `drain` for the loop that stops when idle, with
--   one unit of fuel for each round: more rounds than pending runs are enough. Jobs/Summary is
--   `failure_summary`.
-- - Mappings: src/agentlen/application/use_cases/save_mapping.py over the table of mappings.
-- - Users: register_user.py, login_user.py, authenticate_user.py and logout_user.py of
--   src/agentlen/application/use_cases; Users/Credentials is src/agentlen/domain/services/credentials.py.
-- - Imports/Create: src/agentlen/application/use_cases/create_import.py over the tables that it reads.
--
-- - Storage: src/agentlen/infrastructure/persistence/repositories/sql.py, what an import writes. Storage/Table
--   is a table with a natural key and INSERT ... ON CONFLICT DO NOTHING; Storage/Slices `_slices` and
--   `_insert_many`; Storage/Candidates and Storage/Reconcile what the `add_many` share; then
--   Storage/Sessions, Storage/Calls, Storage/Records and Storage/Referentials. Storage/Outcome is
--   `InsertOutcome` of src/agentlen/application/dto/persistence.py.
-- - Running: src/agentlen/application/use_cases/run_import.py. Running/References is resolve_references.py,
--   Running/Rows the rows of a batch, Running/Batch `_import_batch`, Running/Counters the totals, and
--   Running/Execute the loop over the batches, `run_import` for `execute`.
--
-- A validated mapping is the engine's input; the normalizer calls the engine for each record; a
-- request makes a run pending; the worker claims it and hands it to an importer, an argument there;
-- the import of a run validates its mapping, normalizes the records of each batch and stores them.
--
-- In Storage, two elements of a list are two objects, told apart by position (`is`), and each of a
-- table's rows has its key, its id and its other columns. Storage/Constraints and the constraints in
-- Storage/Sessions and Storage/Calls are the NOT NULL, CHECK and foreign keys of the tables session,
-- model_call and tool_call in src/agentlen/infrastructure/persistence/tables.py. An insertion that
-- violates one is an `err`. Which values a column of a type takes, with the range of INTEGER and
-- BIGINT, belongs to the driver and PostgreSQL: it is an argument, `Server.accepts`, of which nothing
-- is assumed. The foreign keys of raw_record, import_issue and model name rows that the run or the
-- transaction has read or made; these, and whether text and JSONB columns of the other tables take
-- what they are given, are left out, and so is a connection that fails. A list of slices is read with
-- the number of items as fuel, since each slice takes one or more.
--
-- In Running, what the reader gives is a list of batches that may end in an exception, and what
-- raises in a batch leaves the database of the batches before. `content_hash` raises a TypeError on a
-- record with a date in it, which JSON cannot hold. In Jobs/Worker, the importer returns, raises an
-- Exception or is interrupted by what is no Exception; the statements of the queue raise nothing.
--
-- An exception is an `err`, `None` in a value is `null`, a message for people is left out but its code
-- is kept, and a float is its 64 bits. `uuid4` draws the next number of a supply.
--
-- Not modelled: the tally of missing fields of an import, uploads, the AI adapters, the
-- dashboards, the HTTP interface and the frontend. Requests run one at a time: what two concurrent
-- transactions see of each other is not modelled, but for the rows that a claim skips since they are
-- locked.
pub mod Base
pub mod Json
pub mod JsonPath
pub mod Mapping
pub mod Python
pub mod Engine
pub mod Validator
pub mod Normalizer
pub mod Jobs
pub mod Mappings
pub mod Users
pub mod Imports
pub mod Storage
pub mod Running
mod Examples
