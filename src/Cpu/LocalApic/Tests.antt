-- ===== src/Cpu/LocalApic/Tests.antt =====
-- The registers of a controller that were all 0.
use tachyon.Cpu.LocalApic.{program}
use tachyon.Cpu.LocalApic.Program.{Programmed, program-Programmed}

program-Programmed_example : Programmed 0x5900 (λ r. 0) (program (λ r. 0))
program-Programmed_example = program-Programmed 0x5900 (λ r. 0)
