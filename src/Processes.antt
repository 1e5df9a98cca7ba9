-- ===== src/Processes.antt =====
-- Processes and threads (core/tachyon.processes, include/tachyon.processes).
pub mod Process
pub mod Scheduler
