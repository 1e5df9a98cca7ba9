-- ===== src/Boot/Entry/Tests.antt =====
-- A small machine that boots.
use tachyon.Base.{
  ℕ, ◌+◌, ◌≡◌, refl, true, false, none, arith, ◌==◌, if◌then◌else◌, replicate, length-replicate,
  Outcome, ok, fatal, overrun, out_of_fuel,
}
use tachyon.Collections.BitMap.{
  size, get, assign, get_index_of_from, scan, bit_at, with_bit, test_bit, put_bit,
}
use tachyon.Memory.PhysicalMemory.{
  PhysicalMemory, page_size, allocate_aligned, search_aligned, next_index, align_up, align_down,
  try_allocate, all_free, mark, page_count, reserve, set_region, region_loop,
}
use tachyon.Memory.TempMap.{
  is_present, is_large, phys_page, phys_off, pstruct_addr, tempmap_addr, find_page, find_unused,
  temp_entry, pstruct_map, release, pstruct_unmap, resolve, load_word, load, store,
}
use tachyon.Memory.VirtualMemory.{
  map_structure, enter, descend, descend_pd, split_virtual_and_map, unmap_tables, mapping, map_in,
  map_page,
}
use tachyon.Memory.VirtualZoneManager.{no_zone, define, find_free, is_free, overlaps}
use tachyon.Boot.MultiBoot.{set_up_memory, free_ranges, mem_range_count}
use tachyon.Boot.Entry.{BootEnvironment, boot, has_apic}
use tachyon.Boot.Entry.Booted.{Booted, boot-Booted}
use tachyon.Cpu.InterruptManager.{add_handler}
use tachyon.Cpu.LocalApic.{Kernel, init_apic, program}
use tachyon.Processes.Scheduler.{Scheduler, make_scheduler}

abbrev result {ℓ} : {A : Type ℓ} → Outcome A → A → A
result (ok a) d = a
result fatal d = d
result overrun d = d
result out_of_fuel d = d

abbrev environment : BootEnvironment
environment = record {
  mbm = 0x2badb002;
  info = record {
    flags = 0;
    mem_lower = 0;
    mem_upper = 0;
    cmdline = 0;
    mmap_length = 0;
    mmap_addr = 0;
  };
  read32 = λ x. 0;
  lma_start = 0x100000;
  ebss = 0;
  cpuid_dx = 0x200;
  msr = 0x5900;
  space = 0x1000;
  timer_handler = 0x700;
  spurious_handler = 0x710;
  error_handler = 0x720;
  idle_entry = 0x730;
  process_address = 0x60;
  thread_address = 0x70;
  thread_node = 0x80;
  process_node = 0x90;
  nodes = record {
    count = 0;
    head = 0;
    next = λ x. 0;
    payload = λ x. record { address = 0; parent = 0; id = 0; stack = 0; ip = 0 };
    live = λ x. false;
  };
}

-- The pml4 at 0x1000, the pdpt at 0x2000, the pd at 0x3000 and the pt at 0x4000.
abbrev tables : ℕ → ℕ
tables x =
    if x == 0x200 + 511
    then 0x2003
    else if x == 0x400 + 510
    then 0x3003
    else if x == 0x600 + 256
    then 0x4003
    else 0

abbrev kernel : Kernel
kernel = record {
  machine = record {
    temp_mappings = replicate 10 0;
    ram = tables;
    physical = record { sp_bitmap = record { byte_count = 300; memory = replicate 300 0 } };
  };
  zones = replicate 2 no_zone;
  handlers = replicate 60 0;
  registers = λ x. 0;
}

abbrev no_processes : Scheduler
no_processes = record {
  processes =
      λ i. record { count = 0; head = 0; next = λ x. 0; payload = λ x. none; live = λ x. false };
}

abbrev memory : PhysicalMemory
memory =
    result (set_up_memory 9 environment.read32 environment.info 0x100000 0 kernel.machine.physical)
      kernel.machine.physical

abbrev with_memory : Kernel
with_memory = record kernel { machine = record kernel.machine { physical = memory } }

memory_set_up :
    set_up_memory 9 environment.read32 environment.info 0x100000 0 kernel.machine.physical
    ≡ ok memory
unfolding set_up_memory mem_range_count free_ranges reserve set_region region_loop assign size
    with_bit put_bit align_down
memory_set_up = refl

abbrev with_apic : Kernel
with_apic = result (init_apic 9 0x1000 0x5900 0x700 0x710 0x720 with_memory) with_memory

apic_initialised : init_apic 9 0x1000 0x5900 0x700 0x710 0x720 with_memory ≡ ok with_apic
unfolding set_up_memory mem_range_count free_ranges reserve set_region region_loop assign size
    with_bit put_bit align_down init_apic define find_free is_free overlaps is_present is_large
    phys_page phys_off pstruct_addr tempmap_addr find_page find_unused temp_entry pstruct_map
    release pstruct_unmap resolve load_word load store map_structure enter descend descend_pd
    split_virtual_and_map unmap_tables mapping map_in map_page add_handler program
apic_initialised = refl

abbrev with_stack : PhysicalMemory × ℕ
with_stack = result (allocate_aligned 9 page_size 0x1000 with_apic.machine.physical) (memory, 0)

stack_allocated :
    allocate_aligned 9 page_size 0x1000 with_apic.machine.physical ≡ ok (with_stack.0, with_stack.1)
unfolding set_up_memory mem_range_count free_ranges reserve set_region region_loop assign size
    with_bit put_bit align_down init_apic define find_free is_free overlaps is_present is_large
    phys_page phys_off pstruct_addr tempmap_addr find_page find_unused temp_entry pstruct_map
    release pstruct_unmap resolve load_word load store map_structure enter descend descend_pd
    split_virtual_and_map unmap_tables mapping map_in map_page add_handler program allocate_aligned
    search_aligned next_index align_up try_allocate all_free mark page_count get get_index_of_from
    scan bit_at test_bit
stack_allocated = refl

apic_present : has_apic environment.cpuid_dx ≡ true
unfolding has_apic
apic_present = refl

boot-Booted_example :
    Booted environment kernel (boot 9 environment kernel (make_scheduler no_processes))
boot-Booted_example =
    boot-Booted environment no_processes (omega arith) (omega arith) 9 kernel
      (length-replicate {A = ℕ} 60 0) (omega arith) memory with_stack.0 with_apic with_stack.1
      (omega arith) refl apic_present memory_set_up apic_initialised stack_allocated
