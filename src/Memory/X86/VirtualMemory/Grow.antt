-- ===== src/Memory/X86/VirtualMemory/Grow.antt =====
-- VirtualMemory::map of the x86 build (core/tachyon.memory/x86/VirtualMemory.cc) where the page table
-- has to be allocated.
use tachyon.Base.{
  ℕ, ◌+◌, ◌*◌, ◌/◌, ◌%◌, ◌^◌, ◌<◌, bit_or, ◌≡◌, refl, ap, ◌∙◌, ◌≢◌, false, some, List, arith, ok,
}
use tachyon.Base.Bits.{bit_or_fields, or_lowest}
use tachyon.Memory.TempMap.{is_present, page_present, page_writable}
use tachyon.Memory.TempMap.Entries.{is_present_lem}
use tachyon.Memory.TempMap.Slots.{unused-set}
use tachyon.Memory.PhysicalPages.{PhysicalPages}
use tachyon.Memory.X86.TempMap.{
  Machine, pstruct_addr, tempmap_addr, temp_entry, write, zeroed, store, allocate_pstruct_any,
}
use tachyon.Memory.X86.TempMap.Slots.{
  IsPage, Opened, pstruct_addr_lem, with_entries, store_entry, find_page-set,
}
use tachyon.Memory.X86.VirtualMemory.{
  pd_index, pt_index, entry, translate, descend_pd, split_virtual_and_map, map_page,
  get_mapped_addr,
}
use tachyon.Memory.X86.VirtualMemory.Split.{
  IsHidden, Present, enter_pt-Split, opened, get_opened, opened-IsValid, tempmap_addr_pos,
  pd_index_below, pt_index_below,
}
use tachyon.Memory.X86.VirtualMemory.Supply.{allocates}
use tachyon.Memory.X86.VirtualMemory.Map.{
  mapped_entry, mapped_entry_word, mapped_entry_page, mapped_entry_present, written, write_here,
  write_there, Present-written, translate-Present, get_mapped_addr_present,
}
use tachyon.Memory.X86.VirtualMemory.Absent.{Absent, open_space, m1, space_below, load_absent}

-- The entry for a page table.
abbrev table_entry : ℕ → ℕ
table_entry addr = bit_or (bit_or addr page_present) page_writable

table_entry_lem : (addr : ℕ) → IsPage addr → table_entry addr ≡ addr + 3
table_entry_lem addr p =
    let pages : addr ≡ addr / 4096 * 4096 = omega (arith, p.whole) in
    let halved : (addr / 4096 * 4096 + 1) / 2 ≡ addr / 4096 * 2048 = omega arith in
    ap table_entry pages
    ∙ rw (bit_or_fields 12 (addr / 4096) 1 (omega arith)) (
        omega (
          arith,
          p.whole,
          or_lowest (addr / 4096 * 4096 + 1) 2,
          ap (λ (t : ℕ). bit_or t 1) halved,
          bit_or_fields 11 (addr / 4096) 1 (omega arith),
        ))

zeroed_inside : (first : ℕ) (ram : ℕ → ℕ) (i : ℕ) → i < 1024 → zeroed first ram (first + i) ≡ 0
zeroed_inside first ram i low = ground arith

-- A page from the allocator for a page table.
pub record Supplied (pages : PhysicalPages) (m : Machine pages.State) (space : ℕ) (s : pages.State)
    (addr : ℕ) : Type 0 where
  pub allocated : pages.allocate_page m.physical ≡ ok (s, addr)
  pub hidden : IsHidden m addr
  pub some_page : addr ≢ 0
  pub other : space ≢ addr

module _ (pages : PhysicalPages) (m : Machine pages.State) (space virt : ℕ)
    (a : Absent m space virt) (s : pages.State) (addr : ℕ)
    (supplied : Supplied pages m space s addr) where
  abbrev o : Opened m space
  o = open_space m space virt a

  abbrev page : IsPage addr
  page = supplied.hidden.page

  abbrev pd_place : ℕ
  pd_place = space / 4 + pd_index virt

  abbrev es1 : List ℕ
  es1 = opened m space o.at

  -- The machine with the page taken and cleared, and the page directory open.
  abbrev cleared : Machine pages.State
  cleared = record m { temp_mappings = es1; ram = zeroed (addr / 4) m.ram; physical = s }

  allocates_table : allocate_pstruct_any pages (m1 m space virt a) ≡ ok (cleared, addr)
  allocates_table =
      allocates pages (m1 m space virt a) (opened-IsValid m a.valid space o.at) s addr
        supplied.allocated
        (record {
          page = page;
          missing =
              find_page-set m.temp_mappings 0 o.at.slot addr space supplied.hidden.missing
                a.space_hidden.page supplied.other;
        })
        supplied.some_page
        (omega (arith, a.room, unused-set m.temp_mappings o.at.slot (temp_entry space)))

  -- The machine with the page table in place, and nothing open.
  abbrev pub grown : Machine pages.State
  grown = record m {
    ram = write pd_place (table_entry addr) (zeroed (addr / 4) m.ram);
    physical = s;
  }

  stores :
      store (tempmap_addr o.at.slot + 4 * pd_index virt) (table_entry addr) cleared
      ≡ ok (with_entries grown es1)
  stores =
      store_entry cleared o.at.slot space (space_below m space virt a) a.space_hidden.page
        (get_opened m a.valid space o.at) (pd_index virt) (pd_index_below virt) (table_entry addr)

  new_entry : entry grown.ram space (pd_index virt) ≡ table_entry addr
  new_entry = write_here pd_place (table_entry addr) (zeroed (addr / 4) m.ram)

  pub Present-grown : Present grown space virt addr
  Present-grown = record {
    valid = record {
      ten = a.valid.ten;
      words =
          λ x. ground (arith, a.valid.words x, table_entry_lem addr page, page.word, page.whole);
    };
    space_hidden = record { page = a.space_hidden.page; missing = a.space_hidden.missing };
    present =
        ap is_present (new_entry ∙ table_entry_lem addr page)
        ∙ is_present_lem (addr + 3)
        ∙ ground (arith, page.whole);
    table_of =
        ap pstruct_addr (new_entry ∙ table_entry_lem addr page)
        ∙ pstruct_addr_lem (addr + 3) (omega (arith, page.word, page.whole))
        ∙ omega (arith, page.whole);
    table_hidden = record { page = page; missing = supplied.hidden.missing };
    other = supplied.other;
    room = a.room;
  }

  pub vacant_entry : grown.ram (addr / 4 + pt_index virt) ≡ 0
  vacant_entry =
      write_there pd_place (table_entry addr) (zeroed (addr / 4) m.ram) (addr / 4 + pt_index virt)
        apart
      ∙ zeroed_inside (addr / 4) m.ram (pt_index virt) (pt_index_below virt)
    where
      apart : addr / 4 + pt_index virt ≢ pd_place
      apart same_place = supplied.other (
          omega (
            arith,
            same_place,
            page.whole,
            a.space_hidden.page.whole,
            pd_index_below virt,
            pt_index_below virt,
          ))

  pub map_page_grown :
      (phys flags : ℕ)
      → map_page pages space virt phys flags m
        ≡ ok (written grown space virt addr Present-grown (bit_or (bit_or phys page_present) flags))
  unfolding map_page split_virtual_and_map descend_pd
  map_page_grown phys flags =
      let split = enter_pt-Split grown space virt addr Present-grown o.at in
      let v = bit_or (bit_or phys page_present) flags in
      let vacant : is_present (grown.ram (addr / 4 + pt_index virt)) ≡ false =
        ap is_present vacant_entry ∙ is_present_lem 0 in
      rw
        (
          o.returns,
          tempmap_addr_pos o.at.slot (space_below m space virt a),
          load_absent m space virt a,
          a.missing,
          allocates_table,
          stores,
          split.returns,
          split.load_pt,
          vacant,
          split.store_pt v,
          split.restores (write (addr / 4 + pt_index virt) v grown.ram),
        )
        refl

-- What map does: the page table is a new page of zeroes but for the entry of the page.
pub record Grown (pages : PhysicalPages) (m : Machine pages.State) (space virt q flags : ℕ)
    (s : pages.State) (addr : ℕ) : Type 0 where
  pub mapped : Machine pages.State
  pub returns : map_page pages space virt (q * 4096) flags m ≡ ok mapped
  pub only_entries :
      mapped.ram
      ≡ write
          (addr / 4 + pt_index virt)
          (bit_or (bit_or (q * 4096) page_present) flags)
          (write (space / 4 + pd_index virt) (table_entry addr) (zeroed (addr / 4) m.ram))
  pub same_entries : mapped.temp_mappings ≡ m.temp_mappings
  pub page_taken : mapped.physical ≡ s
  pub translates : translate mapped.ram space virt ≡ some (q * 4096 + virt % 4096)
  pub lookup : get_mapped_addr pages space virt mapped ≡ ok (mapped, q * 4096)

-- On x86, where the page table is absent, two temporary mappings are unused, the page directory has
-- none, and the allocator supplies for the table a page that is not 0, not the page directory and
-- has no temporary mapping either, map of a page with flags below 4096 returns: the page for the
-- table is zeroed and entered in the page directory, the entry of the address is written, and no
-- other word and no temporary mapping changes; the processor then translates the address to the
-- page, and getMappedAddr gives it.
pub map_page-Grown :
    (pages : PhysicalPages) (m : Machine pages.State) (space virt q flags : ℕ) (s : pages.State)
    (addr : ℕ)
    → Absent m space virt
    → Supplied pages m space s addr
    → q * 4096 < 2 ^ 32
    → flags < 4096
    → Grown pages m space virt q flags s addr
map_page-Grown pages m space virt q flags s addr a supplied fits small =
    let n = grown pages m space virt a s addr supplied in
    let p = Present-grown pages m space virt a s addr supplied in
    let v = mapped_entry q flags small in
    let here = addr / 4 + pt_index virt in
    let n' = written n space virt addr p v in
    let p' = Present-written n space virt addr p v (mapped_entry_word q flags small fits) in
    let is_v : n'.ram here ≡ v = write_here here v n.ram in
    let page : pstruct_addr (n'.ram here) ≡ q * 4096 =
      ap pstruct_addr is_v ∙ mapped_entry_page q flags small fits in
    record {
      mapped = n';
      returns = map_page_grown pages m space virt a s addr supplied (q * 4096) flags;
      only_entries = refl;
      same_entries = refl;
      page_taken = refl;
      translates =
          translate-Present n' space virt addr p'
            (ap is_present is_v ∙ mapped_entry_present q flags small)
          ∙ ap (λ (t : ℕ). some (t + virt % 4096)) page;
      lookup =
          get_mapped_addr_present pages n' space virt addr p' ∙ ap (λ (t : ℕ). ok (n', t)) page;
    }
