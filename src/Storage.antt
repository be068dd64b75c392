-- ===== src/Storage.antt =====
-- The tables of src/agentlen/infrastructure/persistence/repositories/sql.py that an import fills.
pub mod Table
pub mod Slices
pub mod Found
pub mod Candidates
pub mod Reconcile
pub mod Distinct
pub mod Constraints
pub mod Outcome
pub mod Sessions
pub mod Calls
pub mod Records
pub mod Referentials
