-- ===== src/Binary.antt =====
-- The formats of binaries (include/tachyon.binary).
pub mod Elf
