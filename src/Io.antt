-- ===== src/Io.antt =====
-- Files (core/tachyon.io, include/tachyon.io, include/tachyon.core.iface/File.h).
pub mod MemoryFileAdapter
