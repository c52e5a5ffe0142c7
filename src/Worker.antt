-- ===== src/Worker.antt =====
-- crates/sapi/src/rapira_worker.rs and crates/sapi/src/start.rs: the loops of an interpreter thread.
pub mod Pull
pub mod Cycles
pub mod Health
pub mod Failing
pub mod Main
pub mod Backoff
pub mod Boot
mod Tests
