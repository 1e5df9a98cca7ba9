-- ===== src/Cpu/LocalApic.antt =====
-- LocalApic (core/tachyon.cpu/LocalApic.cc, include/tachyon.cpu/LocalApic.h): set-up of the local
-- interrupt controller. `msr` is the value of IA32_APIC_BASE; a register is a word at its offset.
pub mod Handlers
mod Program
mod Tests
use tachyon.Base.{
  ℕ, ◌^◌, bit_and, bit_or, Bool, true, not, ◌&&◌, Option, none, some, List, ◌==◌, if◌then◌else◌,
  get_or, set, Outcome, ok, fatal, ◌>>=◌, ◌>>◌, kassert,
}
use tachyon.Base.Bits.{u32, add64}
use tachyon.Memory.PhysicalMemory.{reserve}
use tachyon.Memory.TempMap.{Machine}
use tachyon.Memory.VirtualMemory.{map_page}
use tachyon.Memory.VirtualZoneManager.{VirtualZone, no_zone, define}
use tachyon.Cpu.InterruptManager.{add_handler}

abbrev pub apic_virtual : ℕ
apic_virtual = 0xFFFFFFFFA0000000

abbrev pub apic_global_enable : ℕ
apic_global_enable = 2 ^ 11

abbrev pub apic_bsp : ℕ
apic_bsp = 2 ^ 8

abbrev pub apic_sv_enable : ℕ
apic_sv_enable = 2 ^ 8

abbrev pub apic_tm_periodic : ℕ
apic_tm_periodic = 2 ^ 17

abbrev pub apic_lvt_masked : ℕ
apic_lvt_masked = 2 ^ 17

abbrev pub irq_spurious : ℕ
irq_spurious = 0x20

abbrev pub irq_timer : ℕ
irq_timer = 0x21

abbrev pub irq_error : ℕ
irq_error = 0x22

abbrev pub get_physical_base : ℕ → ℕ
get_physical_base msr = bit_and msr 0xFFFFF000

abbrev pub is_primary_cpu : ℕ → Bool
is_primary_cpu msr = not (bit_and msr apic_bsp == 0)

abbrev pub Registers : Type 0
Registers = ℕ → ℕ

abbrev pub is_enabled : ℕ → Registers → Bool
is_enabled msr regs =
    not (bit_and msr apic_global_enable == 0) && not (bit_and (regs 0xf0) apic_sv_enable == 0)

abbrev pub put_reg : ℕ → ℕ → Registers → Registers
put_reg r v regs x = if x == r then u32 v else regs x

abbrev pub or_reg : ℕ → ℕ → Registers → Registers
or_reg r v regs = put_reg r (bit_or (regs r) v) regs

unfoldable pub signal_eoi : Registers → Registers
signal_eoi regs = put_reg 0xb0 0 regs

-- The writes of init, in order.
unfoldable pub program : Registers → Registers
program regs =
    let r1 = or_reg 0x350 apic_lvt_masked regs in
    let r2 = or_reg 0x360 apic_lvt_masked r1 in
    let r3 = or_reg 0x330 apic_lvt_masked r2 in
    let r4 = or_reg 0x340 apic_lvt_masked r3 in
    let r5 = or_reg 0xf0 (bit_or irq_spurious apic_sv_enable) r4 in
    let r6 = put_reg 0x3e0 0xB r5 in
    let r7 = put_reg 0x380 0x10000000 r6 in
    let r8 = put_reg 0x320 (bit_or apic_tm_periodic irq_timer) r7 in
    let r9 = put_reg 0x370 irq_error r8 in
    let r10 = put_reg 0x280 0 r9 in
    let r11 = put_reg 0x280 0 r10 in let r12 = put_reg 0xb0 0 r11 in put_reg 0x80 0 r12

-- The parts of the kernel that init reaches. The three handlers are given by their addresses.
pub record Kernel : Type 0 where
  pub machine : Machine
  pub zones : List VirtualZone
  pub handlers : List ℕ
  pub registers : Registers

abbrev pub use_zone : List VirtualZone × Option ℕ → Outcome (List VirtualZone)
use_zone (zones, none) = fatal
use_zone (zones, some i) = ok (set zones i (record (get_or zones i no_zone) { in_use = true }))

unfoldable pub init_apic : ℕ → ℕ → ℕ → ℕ → ℕ → ℕ → Kernel → Outcome Kernel
init_apic fuel space msr timer spurious error k = do
  pm ← reserve (get_physical_base msr) (add64 (get_physical_base msr) 0x1000) k.machine.physical
  zones ← use_zone (define apic_virtual (add64 apic_virtual 0x1000) k.zones)
  machine ←
      map_page fuel space apic_virtual (get_physical_base msr) 0x1A
        (record k.machine { physical = pm })
  kassert (is_primary_cpu msr)
  ok (record {
    machine = machine;
    zones = zones;
    handlers =
        add_handler irq_error error
          (add_handler irq_spurious spurious (add_handler irq_timer timer k.handlers));
    registers = program k.registers;
  })
