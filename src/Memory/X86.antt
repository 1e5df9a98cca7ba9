-- ===== src/Memory/X86.antt =====
-- The virtual memory of the x86 build (core/tachyon.memory/x86/VirtualMemory.cc), with 32-bit words.
pub mod TempMap
pub mod VirtualMemory
