-- ===== src/Memory.antt =====
-- The memory management of core/tachyon.memory and include/tachyon.memory.
pub mod PhysicalMemory
pub mod CoreHeap
pub mod PageSource
pub mod TempMap
pub mod MemoryHelper
pub mod Paging
pub mod VirtualMemory
pub mod PhysicalPages
pub mod X86
pub mod SmartPointer
pub mod Operators
pub mod VirtualZoneManager
pub mod BreakPageAllocator
