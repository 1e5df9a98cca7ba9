-- ===== src/Memory/BreakPageAllocator/Tests.antt =====
-- A break in a zone of eight pages, and the theorems at it.
use tachyon.Base.{
  ℕ, ◌-◌, ◌*◌, ◌/◌, ◌≤◌, ◌<◌, ◌≡◌, refl, ◌⊎◌, true, false, ◌∷◌, arith, ◌==◌, if◌then◌else◌,
  replicate, Outcome, ok, fatal, overrun, out_of_fuel, ◌>>=◌,
}
use tachyon.Collections.BitMap.{
  get_index_of_from, scan, size, get, assign, bit_at, with_bit, test_bit, put_bit,
}
use tachyon.Memory.PageSource.{Grows}
use tachyon.Memory.PhysicalMemory.{
  PhysicalMemory, allocate_aligned, search_aligned, next_index, align_up, align_down, try_allocate,
  page_count, all_free, mark, free,
}
use tachyon.Memory.TempMap.{
  Machine, is_present, is_large, phys_page, phys_off, pstruct_addr, tempmap_addr, find_page,
  find_unused, temp_entry, pstruct_map, pstruct_unmap, release, resolve, load, load_word, store,
}
use tachyon.Memory.VirtualMemory.{
  map_page, map_in, mapping, split_virtual_and_map, map_structure, enter, descend, descend_pd,
  unmap_tables, get_mapped_addr, mapped_in, unmap, unmap_in,
}
use tachyon.Memory.BreakPageAllocator.{
  BreakPageAllocator, add_pages, increase, drop_pages, pages_to_drop, decrease,
}
use tachyon.Memory.BreakPageAllocator.Source.{
  IsValid, PageAdded, break_pages, break_pages-Grows, increase_full,
}
use tachyon.Memory.BreakPageAllocator.Break.{at_break, decrease-IsValid}

-- The pml4 at 0x4000, the pdpt at 0x5000, the pd at 0x6000 and the pt at 0x7000, in a memory of 64
-- pages, of which the first six are in use.
abbrev tables : ℕ → ℕ
tables x =
    if x == 0x800 then 0x5003 else if x == 0xA01 then 0x6003 else if x == 0xC01 then 0x7003 else 0

abbrev machine : Machine
machine = record {
  temp_mappings = replicate 10 0;
  ram = tables;
  physical = record { sp_bitmap = record { byte_count = 8; memory = 0x3F ∷ replicate 7 0 } };
}

abbrev allocator : BreakPageAllocator
allocator = record {
  zone = record { start = 0x40201000; end = 0x40209000; in_use = true };
  brk = 0x40201000;
  large = false;
  flags = 2;
  ps = 0x1000;
}

allocator-IsValid : (b : ℕ) → 0x40201000 ≤ b → b ≤ 0x40209000 → IsValid (at_break allocator b)
allocator-IsValid b above below = record {
  above = above;
  below = below;
  in_space = omega arith;
  page = omega arith;
}

abbrev machine_of : Outcome Machine → Machine
machine_of (ok m) = m
machine_of fatal = machine
machine_of overrun = machine
machine_of out_of_fuel = machine

abbrev one_taken : PhysicalMemory
one_taken = record { sp_bitmap = record { byte_count = 8; memory = 0xBF ∷ replicate 7 0 } }

-- The machine with a page mapped at the break.
abbrev mapped_machine : Machine
mapped_machine =
    machine_of (map_page 9 0x4000 0x40201000 0x7000 2 (record machine { physical = one_taken }))

allocates : allocate_aligned 9 0x1000 0x1000 machine.physical ≡ ok (one_taken, 0x7000)
unfolding allocate_aligned search_aligned next_index align_up align_down try_allocate page_count
    all_free mark get_index_of_from scan size get assign bit_at with_bit test_bit put_bit
allocates = refl

maps :
    map_page 9 0x4000 0x40201000 0x7000 2 (record machine { physical = one_taken })
    ≡ ok mapped_machine
unfolding map_page map_in mapping split_virtual_and_map map_structure enter descend descend_pd
    unmap_tables is_present is_large phys_page phys_off pstruct_addr tempmap_addr find_page
    find_unused temp_entry pstruct_map pstruct_unmap release resolve load load_word store
maps = refl

one_page : PageAdded 9 0x4000 allocator machine mapped_machine
one_page = record { pm = one_taken; phys = 0x7000; allocated = allocates; mapped = maps }

break_pages-Grows_example :
    Grows
      (break_pages 9 0x4000)
      (allocator, machine)
      (at_break allocator 0x40202000, mapped_machine)
break_pages-Grows_example =
    break_pages-Grows 9 0x4000 allocator machine mapped_machine
      (allocator-IsValid 0x40201000 (omega arith) (omega arith)) (omega arith) one_page

increase_full_example : increase 9 0x4000 9 allocator machine ≡ ok (allocator, machine, 0)
increase_full_example = increase_full 9 0x4000 9 allocator machine (omega arith) (omega arith)

increases :
    increase 9 0x4000 1 allocator machine
    ≡ ok (at_break allocator 0x40202000, mapped_machine, 0x40202000)
unfolding increase add_pages
increases = rw (allocates, maps)

-- Nothing is left to give back at the start of the zone.
decreases_nothing : decrease 0x4000 3 allocator machine ≡ ok (allocator, machine, 0x40201000)
unfolding decrease drop_pages pages_to_drop
decreases_nothing = refl

-- The allocator that holds the page, and the machine once it is given back.
abbrev one_held : BreakPageAllocator
one_held = at_break allocator 0x40202000

abbrev freed_machine : Machine
freed_machine = machine_of (decrease 0x4000 1 one_held mapped_machine >>= λ (a', m', top). ok m')

decreases : decrease 0x4000 1 one_held mapped_machine ≡ ok (allocator, freed_machine, 0x40201000)
unfolding decrease drop_pages pages_to_drop get_mapped_addr mapped_in unmap unmap_in free map_page
    map_in mapping split_virtual_and_map map_structure enter descend descend_pd unmap_tables
    is_present is_large phys_page phys_off pstruct_addr tempmap_addr find_page find_unused
    temp_entry pstruct_map pstruct_unmap release resolve load load_word store page_count mark assign
    with_bit put_bit size
decreases = refl

decrease-IsValid_example :
    IsValid allocator
    × (0x40201000 ≡ allocator.brk)
    × ((1 * 0x1000 ≤ 0x1000) × (allocator ≡ at_break one_held (0x40202000 - 1 * 0x1000))
        ⊎ (0x1000 < 1 * 0x1000)
          × (allocator
              ≡ at_break one_held (0x40202000 - (0x40202000 - 0x40201000) / 0x1000 * 0x1000)))
decrease-IsValid_example =
    decrease-IsValid 0x4000 1 one_held allocator mapped_machine freed_machine 0x40201000
      (allocator-IsValid 0x40202000 (omega arith) (omega arith)) (omega arith) decreases
