-- ===== src/Running.antt =====
-- The import of one run: src/agentlen/application/use_cases/run_import.py and what it calls.
pub mod References
pub mod Counters
pub mod Rows
pub mod Batch
pub mod Execute
pub mod Counted
pub mod Apart
pub mod Totals
pub mod Whole
pub mod Kept
pub mod Lines
pub mod Bounded
