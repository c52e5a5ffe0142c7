-- ===== src/Pool.antt =====
-- One plugin's pool of PHP interpreter threads: its scoreboard, quota, intake and statistics.
pub mod Scoreboard
pub mod Events
pub mod Semaphore
pub mod Counting
pub mod Intake
