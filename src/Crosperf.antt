-- ===== src/Crosperf.antt =====
-- The benchmark runner (crosperf).
pub mod ImageManager
pub mod Scheduler
