-- ===== src/Boot/Entry.antt =====
-- boot (core/tachyon.boot/Entry.cc) on x86-64: the checks, the physical memory, the local interrupt
-- controller, and the idle process. The log and the final loop of hlt are not in the model.
mod Booted
mod Tests
use tachyon.Base.{
  ℕ, zero, suc, ◌+◌, ◌-◌, ◌*◌, ◌/◌, ◌%◌, ◌^◌, ◌≤◌, ◌<◌, min, bit_and, bit_or, ◌≡◌, refl, sym, ap,
  ◌∙◌, ◌≢◌, ◌↔◌, ◌⊎◌, inl, inr, Bool, true, false, not, ◌&&◌, ◌||◌, Option, none, some, List, [],
  ◌∷◌, ◌++◌, map, arith, ltb, leb, ◌==◌, if◌then◌else◌, ltb→lt, lt→ltb, le→ltb, leb→le, le→leb,
  lt→leb, ==_iff, same, same→eq, Bool-cases, Option-cases, passes_below, passes_below_sound, length,
  get_elem?, get_or, set, take, drop, replicate, All, length-append, length-set, length-replicate,
  get_or-set, get_or-replicate, get_or-replicate_lt, get_or_ext, All-set, All-get_or, All-replicate,
  Outcome, ok, fatal, out_of_fuel, ◌>>=◌, ◌>>◌, kassert, >>=-eq-ok,
}
use tachyon.Memory.PhysicalMemory.{PhysicalMemory}
use tachyon.Memory.TempMap.{Machine}
use tachyon.Collections.LinkedList.{LinkedList}
use tachyon.Boot.MultiBoot.{MbInfo, set_up_memory}
use tachyon.Cpu.LocalApic.{Kernel, init_apic}
use tachyon.Processes.Process.{Thread, Process, make_process, make_thread, add_thread}
use tachyon.Processes.Scheduler.{Scheduler, lowest, add_process}

abbrev pub mb_magic : ℕ
mb_magic = 0x2badb002

abbrev pub core_heap_start : ℕ
core_heap_start = 0xFFFFFFFF81000000

-- What boot is called with and reads: the boot magic, the information and the memory it points to,
-- the addresses of linker symbols and handlers, the processor's registers, and the addresses that
-- operator new returns.
pub record BootEnvironment : Type 0 where
  pub mbm : ℕ
  pub info : MbInfo
  pub read32 : ℕ → ℕ
  pub lma_start : ℕ
  pub ebss : ℕ
  pub cpuid_dx : ℕ
  pub msr : ℕ
  pub space : ℕ
  pub timer_handler : ℕ
  pub spurious_handler : ℕ
  pub error_handler : ℕ
  pub idle_entry : ℕ
  pub process_address : ℕ
  pub thread_address : ℕ
  pub thread_node : ℕ
  pub process_node : ℕ
  pub nodes : LinkedList Thread

-- `cpuid.dx & (1 << 9)`
unfoldable pub has_apic : ℕ → Bool
has_apic dx = not (bit_and dx (2 ^ 9) == 0)

-- createCoreProcess
unfoldable pub create_core_process : BootEnvironment → ℕ → Process
create_core_process b pid = make_process b.space pid b.nodes

-- The idle process with its thread joins the scheduler.
unfoldable pub start_idle : ℕ → BootEnvironment → Kernel → Scheduler → Outcome (Kernel × Scheduler)
start_idle fuel b k s = do
  (pm, thread) ←
      make_thread fuel b.thread_address b.process_address b.idle_entry 0 k.machine.physical
  ok (
    record k { machine = record k.machine { physical = pm } },
    add_process b.process_node (some (add_thread b.thread_node thread (create_core_process b 1)))
        lowest s,
  )

unfoldable pub boot : ℕ → BootEnvironment → Kernel → Scheduler → Outcome (Kernel × Scheduler)
boot fuel b k s = do
  kassert (leb b.ebss core_heap_start)
  kassert (b.mbm == mb_magic)
  pm ← set_up_memory fuel b.read32 b.info b.lma_start b.ebss k.machine.physical
  kassert (has_apic b.cpuid_dx)
  k' ←
      init_apic fuel b.space b.msr b.timer_handler b.spurious_handler b.error_handler
        (record k { machine = record k.machine { physical = pm } })
  start_idle fuel b k' s
