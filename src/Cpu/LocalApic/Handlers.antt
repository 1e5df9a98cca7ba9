-- ===== src/Cpu/LocalApic/Handlers.antt =====
-- The interrupt handlers of LocalApic (core/tachyon.cpu/LocalApic.cc). Each ends with the signal to the
-- controller; that of the timer schedules before. The saved state of the processor is not used.
use tachyon.Base.{ℕ, List, Outcome, ok, ◌>>=◌}
use tachyon.Processes.Process.{Thread}
use tachyon.Processes.Scheduler.{Scheduler, schedule}
use tachyon.Cpu.LocalApic.{Registers, signal_eoi}

abbrev pub get_id : ℕ
get_id = 0

abbrev pub spurious_handler : Registers → Registers
spurious_handler regs = signal_eoi regs

abbrev pub error_handler : Registers → Registers
error_handler regs = signal_eoi regs

-- The threads that are switched to, and the registers.
unfoldable pub timer_handler : ℕ → Scheduler → Registers → Outcome (List Thread × Registers)
timer_handler fuel s regs = do calls ← schedule fuel s; ok (calls, signal_eoi regs)
