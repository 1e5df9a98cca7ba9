-- ===== src/Memory/VirtualMemory/Tests.antt =====
-- A small address space, and the theorems of the virtual memory at it.
use tachyon.Base.{
  ℕ, ◌+◌, ◌^◌, ◌<◌, ◌≡◌, refl, true, false, [], ◌∷◌, arith, ◌==◌, if◌then◌else◌, replicate,
}
use tachyon.Memory.TempMap.{
  Machine, is_present, is_large, phys_page, pstruct_addr, tempmap_addr, pstruct_unmap,
}
use tachyon.Memory.TempMap.Slots.{IsValid, unused, Mapped}
use tachyon.Memory.TempMap.Release.{pstruct_unmap_keeps_entry}
use tachyon.Memory.Paging.{small_page, walk, walk_pd, walk_pdpt}
use tachyon.Memory.VirtualMemory.{map_page, unmap, get_mapped_addr}
use tachyon.Memory.VirtualMemory.Reaches.{Reaches}
use tachyon.Memory.VirtualMemory.Lookup.{page_of, Looked, get_mapped_addr-Looked}
use tachyon.Memory.VirtualMemory.Map.{NewPage, map_page-NewPage}
use tachyon.Memory.VirtualMemory.Supply.{IsSupplied}
use tachyon.Memory.VirtualMemory.Lacks.{Lacks, Apart}
use tachyon.Memory.VirtualMemory.Grow.{grown, map_page-grown}
use tachyon.Collections.BitMap.{
  size, get, assign, get_index_of_from, scan, bit_at, with_bit, test_bit, put_bit,
}
use tachyon.Memory.PhysicalMemory.{
  PhysicalMemory, allocate_aligned, search_aligned, next_index, align_up, align_down, try_allocate,
  all_free, mark, page_count,
}
use tachyon.Memory.VirtualMemory.Unmap.{Cleared, unmap-Cleared}

-- The pml4 at 0x1000, the pdpt at 0x2000, the pd at 0x3000 and the pt at 0x4000.
abbrev tables : ℕ → ℕ
tables x =
    if x == 0x200
    then 0x2003
    else if x == 0x401
    then 0x3003
    else if x == 0x601
    then 0x4003
    else if x == 0x802
    then 0x9003
    else 0

-- Entry 1 of the page table is vacant, entry 2 is in use.
abbrev vacant_address : ℕ
vacant_address = 0x40201000

abbrev used_address : ℕ
used_address = 0x40202000

abbrev machine : Machine
machine = record {
  temp_mappings = replicate 10 0;
  ram = tables;
  physical = record { sp_bitmap = record { byte_count = 0; memory = [] } };
}

tables_words : (x : ℕ) → tables x < 2 ^ 64
tables_words x = ground arith

machine-IsValid : IsValid machine
machine-IsValid = record { ten = refl; words = tables_words }

unused-machine : unused machine.temp_mappings ≡ 10
unfolding unused
unused-machine = refl

reaches_vacant : Reaches tables 0x1000 vacant_address 0x801
unfolding is_present is_large pstruct_addr
reaches_vacant = record {
  e4 = 0x2003;
  e3 = 0x3003;
  e2 = 0x4003;
  at4 = refl;
  at3 = refl;
  at2 = refl;
  present4 = refl;
  present3 = refl;
  present2 = refl;
  small = refl;
  place_of = refl;
}

reaches_used : Reaches tables 0x1000 used_address 0x802
unfolding is_present is_large pstruct_addr
reaches_used = record {
  e4 = 0x2003;
  e3 = 0x3003;
  e2 = 0x4003;
  at4 = refl;
  at3 = refl;
  at2 = refl;
  present4 = refl;
  present3 = refl;
  present2 = refl;
  small = refl;
  place_of = refl;
}

not_large : is_large 3 ≡ false
unfolding is_large
not_large = refl

vacant : is_present (tables 0x801) ≡ false
unfolding is_present
vacant = refl

in_use : is_present (tables 0x802) ≡ true
unfolding is_present
in_use = refl

walk_used : walk tables 0x1000 used_address ≡ small_page 0x9003
unfolding walk walk_pdpt walk_pd is_present is_large pstruct_addr
walk_used = refl

get_mapped_addr-Looked_example :
    Looked machine
      (page_of (walk machine.ram 0x1000 used_address))
      (get_mapped_addr 0x1000 used_address machine)
get_mapped_addr-Looked_example =
    get_mapped_addr-Looked machine 0x1000 used_address machine-IsValid refl (omega arith)
      (omega (arith, unused-machine))

map_page-NewPage_example :
    NewPage machine 0x1000 vacant_address 0x801 5 3
      (map_page 0 0x1000 vacant_address 0x5000 3 machine)
map_page-NewPage_example =
    map_page-NewPage 0 machine 0x1000 vacant_address 0x801 5 3 machine-IsValid refl (omega arith)
      reaches_vacant (omega (arith, unused-machine)) not_large (omega arith) (omega arith) vacant

unmap-Cleared_example : Cleared machine 0x601 (unmap 0x1000 used_address machine)
unfolding pstruct_addr reaches_used
unmap-Cleared_example =
    unmap-Cleared machine 0x1000 used_address 0x802 machine-IsValid refl (omega arith) reaches_used
      (omega (arith, unused-machine))

-- A mapping of the first 2 MiB, through which the structure at 0x4000 is reached.
abbrev one_entry : Machine
one_entry = record machine { temp_mappings = 0x183 ∷ replicate 9 0 }

one_entry-IsValid : IsValid one_entry
one_entry-IsValid = record { ten = refl; words = tables_words }

pt-Mapped : Mapped one_entry 0x4000 (tempmap_addr 0 + 0x4000)
unfolding is_present phys_page
pt-Mapped = record {
  slot = 0;
  inside = omega arith;
  present = refl;
  same_page = refl;
  address = refl;
}

pstruct_unmap_keeps_entry_example : pstruct_unmap (tempmap_addr 0 + 0x4000) one_entry ≡ one_entry
pstruct_unmap_keeps_entry_example =
    pstruct_unmap_keeps_entry one_entry 0x4000 (tempmap_addr 0 + 0x4000) one_entry-IsValid pt-Mapped
      (omega arith)

-- An address whose page table is absent, and an allocator that supplies the page at 0x6000.
abbrev far_address : ℕ
far_address = 0x40601000

abbrev bitmap : PhysicalMemory
bitmap = record { sp_bitmap = record { byte_count = 8; memory = 0x1F ∷ replicate 7 0 } }

abbrev bitmap_behind : PhysicalMemory
bitmap_behind = record { sp_bitmap = record { byte_count = 8; memory = 0x5F ∷ replicate 7 0 } }

abbrev with_pages : Machine
with_pages = record machine { physical = bitmap }

with_pages-IsValid : IsValid with_pages
with_pages-IsValid = record { ten = refl; words = tables_words }

lacks : Lacks tables 0x1000 far_address
unfolding is_present pstruct_addr
lacks = record {
  e4 = 0x2003;
  e3 = 0x3003;
  at4 = refl;
  at3 = refl;
  present4 = refl;
  present3 = refl;
  missing = refl;
}

supplied : IsSupplied 4 bitmap bitmap_behind 0x6000
unfolding allocate_aligned search_aligned next_index align_up align_down try_allocate all_free mark
    page_count get assign get_index_of_from scan bit_at with_bit test_bit put_bit size
supplied = record { allocated = refl; whole = refl; word = omega arith; inner = omega arith }

pages_apart : Apart 0x1000 0x6000 lacks
unfolding lacks pstruct_addr
pages_apart = record {
  not_pml4 = omega arith;
  not_pdpt = omega arith;
  not_pd = omega arith;
  pd_pml4 = omega arith;
  pd_pdpt = omega arith;
}

map_page-grown_example :
    NewPage
      (grown 4 with_pages 0x1000 far_address with_pages-IsValid refl
        (omega arith)
        lacks
        bitmap_behind
        0x6000
        supplied
        pages_apart
        (omega (arith, unused-machine)))
      0x1000
      far_address
      0xC01
      5
      3
      (map_page 4 0x1000 far_address 0x5000 3 with_pages)
map_page-grown_example =
    map_page-grown 4 with_pages 0x1000 far_address with_pages-IsValid refl (omega arith) lacks
      bitmap_behind 0x6000 supplied pages_apart (omega (arith, unused-machine)) 5 3 not_large
      (omega arith) (omega arith)
