-- ===== src/Cpu.antt =====
-- The processor (core/tachyon.cpu, include/tachyon.cpu, and its interrupts).
pub mod InterruptManager
pub mod LocalApic
