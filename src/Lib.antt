-- ===== src/Lib.antt =====
-- A verification library for the tachyon kernel (x86-64 build, and the virtual memory of the x86 build).
--
-- The kernel boots from a multiboot loader, learns the memory map, keeps a bitmap of the physical pages,
-- maps pages into address spaces through four levels of paging structures, grows a heap page by page
-- over a zone of virtual memory, and writes its log through a table of writers to the text console. It
-- then programs the local interrupt controller, whose timer calls the scheduler, and adds an idle process
-- to the scheduler; processes and threads are kept in linked lists of reference-counted pointers.
-- The parts, each with the code it follows:
--   Base: words, Boolean tests, arrays as lists, and how a routine ends (Outcome: it returns, KFATAL
--     stops the kernel, or the rounds granted to a loop run out).
--   Collections.BitMap: core/tachyon.collections/BitMap.cc (get, set as `assign`, setAll, clear,
--     getIndexOf).
--   Memory.PhysicalMemory: core/tachyon.memory/PhysicalMemory.cc over the bitmap (available, reserve,
--     tryAllocate, allocateAligned, allocateFixed, free).
--   Memory.TempMap, Memory.Paging, Memory.VirtualMemory: core/tachyon.memory/x86_64/VirtualMemory.cc:
--     the temporary mappings (pstructMap, pstructUnmap), the walk of the processor as a description
--     of its own, and splitVirtualAndMap, map as `map_page`, unmap, getMappedAddr, newVSpace,
--     deleteVSpace over the words of the physical memory.
--   Memory.X86: core/tachyon.memory/x86/VirtualMemory.cc, the same operations over two levels of
--     four-byte entries; it takes PhysicalMemory through the interface Memory.PhysicalPages.
--   Memory.VirtualZoneManager: core/tachyon.memory/VirtualZoneManager.cc (define, remove).
--   Memory.BreakPageAllocator: core/tachyon.memory/BreakPageAllocator.cc (increase, decrease), which
--     fills the interface Memory.PageSource that the heap takes.
--   Memory.CoreHeap: core/tachyon.memory/CoreHeap.cc over words of memory and a PageSource (init,
--     allocate, free), with the list of blocks as its abstract view.
--   Memory.MemoryHelper: core/tachyon.memory/x86_common/MemoryHelper.cc.
--   Memory.SmartPointer: include/tachyon.memory/SmartPointer.h and ReferenceCounter.h, with runs of
--     its operations as a step relation.
--   Collections.LinkedList: include/tachyon.collections/LinkedList.h, a list with its nodes.
--   Processes: core/tachyon.processes (Thread, Process, Scheduler) over the linked lists.
--   Io.MemoryFileAdapter: core/tachyon.io/MemoryFileAdapter.cc over MemoryHelper::copy.
--   Logging.Log: core/tachyon.logging/Log.cc (writers, parse_u, parse_s, parse_num, format, write).
--   Memory.Operators: core/tachyon.memory/OperatorNew.cc, calls of the heap.
--   Platform.Console, Platform.Runtime, Platform.Bss, Platform.StackDump:
--     core/tachyon.platform/x86_common/console.c, cxx.c, bss.c and dump.cc.
--   Binary.Elf: include/tachyon.binary/elf, the structures and the packed fields.
--   Boot.MultiBoot, Boot.Entry: core/tachyon.boot/MultiBoot.cc and Entry.cc (boot), which composes the
--     memory parts, the interrupt controller and the scheduler.
--   Cpu.InterruptManager, Cpu.LocalApic: core/tachyon.platform/x86_common/InterruptManager.cc and
--     core/tachyon.cpu/LocalApic.cc, on top of the memory parts.
--
-- Numbers: an address, a length or a table entry is a native number with the wrap-around of its 64 bits
-- (or 32, 16, 8) written out. Loops that the source bounds run over their count; the others take fuel:
-- the search of allocateAligned, the search of the heap for a block, the setting of a region, the
-- digits of a number (64 rounds, one for each binary digit), the format string (one round for each
-- byte and one for its end) and the count of the memory map (one round for each entry and one for the
-- end). That the fuel is enough, or that none is, is among the results.
-- A write behind the end of an array on the stack of a routine has no result: the outcome `overrun`.
-- A format string is the memory from its address on, with what stands behind its NUL.
-- A call of a routine on the singletons of the kernel passes their state explicitly. Log output of the
-- other parts is left out, apart from KFATAL, which stops the kernel. The translation look-aside
-- buffer is taken as coherent, since the code invalidates each entry that it changes; a table entry
-- is stored at a multiple of eight.
--
-- Not modelled: the assembly and linker scripts (boot, descriptor tables, interrupt entry), single
-- instructions (CR3, CPUID, time stamp counter, MSRs, ports), the dump of the processor state
-- (dump.cc), the constants of the ELF headers, and the iterator wrapper BaseIterator, which only
-- forwards. Thread::switchTo is an empty function, so a switch of threads is its call. The parts
-- that create objects do not call operator new: the address that it returns is an argument;
-- operator delete only marks an address as deleted.
pub mod Base
pub mod Binary
pub mod Boot
pub mod Collections
pub mod Cpu
pub mod Io
pub mod Logging
pub mod Memory
pub mod Platform
pub mod Processes
