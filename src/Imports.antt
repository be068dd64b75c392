-- ===== src/Imports.antt =====
-- The application's side of imports: a run is created for a file and a mapping.
pub mod Create
