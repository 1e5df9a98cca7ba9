-- ===== src/Logging.antt =====
-- Logging (core/tachyon.logging, include/tachyon.logging).
pub mod Log
