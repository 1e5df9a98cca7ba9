-- ===== src/Platform.antt =====
-- The platform layer (core/tachyon.platform).
pub mod Console
pub mod Runtime
pub mod StackDump
pub mod Bss
