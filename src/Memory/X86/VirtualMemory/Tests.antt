-- ===== src/Memory/X86/VirtualMemory/Tests.antt =====
-- A small address space of the x86 build, and the theorems of its virtual memory at it.
use tachyon.Base.{
  ℕ, ◌%◌, ◌^◌, ◌<◌, ◌≡◌, refl, ◌∷◌, arith, ok, ◌>>=◌, ◌==◌, if◌then◌else◌, replicate,
}
use tachyon.Collections.BitMap.{
  size, get, assign, get_index_of_from, scan, bit_at, with_bit, test_bit, put_bit,
}
use tachyon.Memory.TempMap.{is_present}
use tachyon.Memory.TempMap.Slots.{unused}
use tachyon.Memory.PhysicalMemory.{
  PhysicalMemory, allocate_aligned, search_aligned, next_index, align_up, align_down, try_allocate,
  all_free, mark, page_count,
}
use tachyon.Memory.PhysicalPages.{PhysicalPages, bitmap_pages}
use tachyon.Memory.X86.TempMap.{Machine, pstruct_addr, find_page}
use tachyon.Memory.X86.VirtualMemory.Split.{IsValid, IsHidden, Present}
use tachyon.Memory.X86.VirtualMemory.Map.{Undone, map_page-Undone}
use tachyon.Memory.X86.VirtualMemory.Absent.{Absent, Left, get_mapped_addr-Left}
use tachyon.Memory.X86.VirtualMemory.{delete_vspace}
use tachyon.Memory.X86.VirtualMemory.Spaces.{
  release_page, release_tables, with_physical, delete_vspace-releases,
}
use tachyon.Memory.X86.VirtualMemory.Grow.{Supplied, Grown, map_page-Grown}

-- The page directory at 0x1000 has one page table, at 0x2000, for the addresses from 0x400000 on.
abbrev tables : ℕ → ℕ
tables x = if x == 0x401 then 0x2003 else if x == 0x802 then 0x9003 else 0

abbrev pages : PhysicalPages
pages = bitmap_pages 4

-- The first three pages are in use.
abbrev bitmap : PhysicalMemory
bitmap = record { sp_bitmap = record { byte_count = 8; memory = 0x07 ∷ replicate 7 0 } }

abbrev bitmap_behind : PhysicalMemory
bitmap_behind = record { sp_bitmap = record { byte_count = 8; memory = 0x17 ∷ replicate 7 0 } }

abbrev machine : Machine PhysicalMemory
machine = record { temp_mappings = replicate 10 0; ram = tables; physical = bitmap }

machine-IsValid : IsValid machine
machine-IsValid = record { ten = refl; words = λ x. ground arith }

hidden : (addr : ℕ) → addr % 4096 ≡ 0 → addr < 2 ^ 32 → IsHidden machine addr
unfolding find_page is_present
hidden addr whole word = record { page = record { whole = whole; word = word }; missing = refl }

unused-machine : unused machine.temp_mappings ≡ 10
unfolding unused
unused-machine = refl

present : Present machine 0x1000 0x401000 0x2000
unfolding is_present pstruct_addr
present = record {
  valid = machine-IsValid;
  space_hidden = hidden 0x1000 refl (omega arith);
  present = refl;
  table_of = refl;
  table_hidden = hidden 0x2000 refl (omega arith);
  other = omega arith;
  room = omega (arith, unused-machine);
}

missing_table : Absent machine 0x1000 0x801000
unfolding is_present
missing_table = record {
  valid = machine-IsValid;
  space_hidden = hidden 0x1000 refl (omega arith);
  missing = refl;
  room = omega (arith, unused-machine);
}

supplied : Supplied pages machine 0x1000 bitmap_behind 0x4000
unfolding allocate_aligned search_aligned next_index align_up align_down try_allocate all_free mark
    page_count get assign get_index_of_from scan bit_at with_bit test_bit put_bit size
supplied = record {
  allocated = refl;
  hidden = hidden 0x4000 refl (omega arith);
  some_page = omega arith;
  other = omega arith;
}

map_page-Undone_example : Undone pages machine 0x1000 0x401000 5 3
map_page-Undone_example =
    map_page-Undone pages machine 0x1000 0x401000 0x2000 5 3 present refl (omega arith)
      (omega arith)

get_mapped_addr-Left_example : Left pages machine 0x1000 0x801000
get_mapped_addr-Left_example = get_mapped_addr-Left pages machine 0x1000 0x801000 missing_table

map_page-Grown_example : Grown pages machine 0x1000 0x801000 5 3 bitmap_behind 0x4000
map_page-Grown_example =
    map_page-Grown pages machine 0x1000 0x801000 5 3 bitmap_behind 0x4000 missing_table supplied
      (omega arith) (omega arith)

delete_vspace-releases_example : delete_vspace pages 0x1000 machine ≡ (
    release_tables pages tables 0x1000 1024 0 bitmap >>= λ s.
    release_page pages 0x1000 s >>= λ s'. ok (with_physical pages machine s'))
delete_vspace-releases_example =
    delete_vspace-releases pages machine 0x1000 machine-IsValid (hidden 0x1000 refl (omega arith))
      (omega (arith, unused-machine))
