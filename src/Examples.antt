-- ===== src/Examples.antt =====
-- The theorems at concrete inputs.
mod Paths
mod Records
mod Queue
mod Requests
mod Sessions
mod Documents
mod Versions
mod Logins
mod Stored
mod Imported
