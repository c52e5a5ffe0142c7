-- ===== src/StaticFiles.antt =====
-- The static-file middleware of the HTTP plugin: crates/middleware/static_files.
pub mod Paths
pub mod Io
pub mod Cache
pub mod Backend
