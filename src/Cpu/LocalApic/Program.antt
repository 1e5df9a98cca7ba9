-- ===== src/Cpu/LocalApic/Program.antt =====
-- The registers after LocalApic::init (core/tachyon.cpu/LocalApic.cc).
use tachyon.Base.{ℕ, ◌+◌, ◌*◌, ◌/◌, ◌%◌, ◌^◌, bit_and, bit_or, ◌≡◌, refl, ap, ◌∙◌, not, arith, ◌==◌}
use tachyon.Base.Bits.{u32, bit_and_shifted, bit_and_mask, bit_or_shifted, or_lowest}
use tachyon.Cpu.LocalApic.{
  Registers, program, is_enabled, apic_lvt_masked, apic_global_enable, irq_timer, irq_error,
}

-- Bit 16 of a register.
abbrev pub mask_bit : ℕ → ℕ
mask_bit v = bit_and v (2 ^ 16)

mask_bit_lem : (v : ℕ) → mask_bit v ≡ v / 2 ^ 16 % 2 * 2 ^ 16
mask_bit_lem v = bit_and_shifted 16 v 1 ∙ ap (λ (t : ℕ). t * 2 ^ 16) (bit_and_mask 1 (v / 2 ^ 16))

-- Setting bit 17 leaves bit 16.
mask_bit_stays : (v : ℕ) → mask_bit (u32 (bit_or v apic_lvt_masked)) ≡ mask_bit v
mask_bit_stays v = omega (
  arith,
  mask_bit_lem (u32 (bit_or v apic_lvt_masked)),
  mask_bit_lem v,
  bit_or_shifted 16 v 2,
  or_lowest (v / 2 ^ 16) 2,
)

-- Bit 8 is set.
enable_bit : (v : ℕ) → bit_and (u32 (bit_or v (2 ^ 8 + 0x20))) (2 ^ 8) ≡ 2 ^ 8
enable_bit v = omega (
  arith,
  bit_and_shifted 8 (u32 (bit_or v (2 ^ 8 + 0x20))) 1,
  bit_and_mask 1 (u32 (bit_or v (2 ^ 8 + 0x20)) / 2 ^ 8),
  bit_or_shifted 5 v 9,
  or_lowest (v / 2 ^ 5) 9,
  or_lowest (v / 2 ^ 5 / 2) 4,
  or_lowest (v / 2 ^ 5 / 2 / 2) 2,
  or_lowest (v / 2 ^ 5 / 2 / 2 / 2) 1,
)

-- What init leaves in the registers: `msr` is the base register.
pub record Programmed (msr : ℕ) (regs regs' : Registers) : Type 0 where
  pub enabled : is_enabled msr regs' ≡ not (bit_and msr apic_global_enable == 0)
  pub timer : regs' 0x320 ≡ 2 ^ 17 + irq_timer
  pub timer_count : (regs' 0x380 ≡ 0x10000000) × (regs' 0x3e0 ≡ 0xB)
  pub errors : (regs' 0x370 ≡ irq_error) × (regs' 0x280 ≡ 0)
  pub accepting : (regs' 0xb0 ≡ 0) × (regs' 0x80 ≡ 0)
  pub unmasked :
      (mask_bit (regs' 0x350) ≡ mask_bit (regs 0x350))
      × (mask_bit (regs' 0x360) ≡ mask_bit (regs 0x360))
      × (mask_bit (regs' 0x330) ≡ mask_bit (regs 0x330))
      × (mask_bit (regs' 0x340) ≡ mask_bit (regs 0x340))

-- init enables the controller, if the base register does; it sets the periodic timer with its count
-- and vector and the vector of errors, and accepts every interrupt. The mask bits of the two local
-- pins, the thermal sensor and the performance counters stay as they were.
pub program-Programmed : (msr : ℕ) (regs : Registers) → Programmed msr regs (program regs)
unfolding program
program-Programmed msr regs = record {
  enabled = ground (arith, enable_bit (regs 0xf0));
  timer = refl;
  timer_count = (refl, refl);
  errors = (refl, refl);
  accepting = (refl, refl);
  unmasked = (
    mask_bit_stays (regs 0x350),
    mask_bit_stays (regs 0x360),
    mask_bit_stays (regs 0x330),
    mask_bit_stays (regs 0x340),
  );
}
