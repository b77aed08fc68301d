-- ===== src/Bgw.antt =====
-- The background jobs of src/bgw.
pub mod JobStat
pub mod Scheduler
