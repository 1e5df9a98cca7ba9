-- ===== src/Boot.antt =====
-- The boot code (core/tachyon.boot, include/tachyon.boot).
pub mod MultiBoot
pub mod Entry
