-- ===== src/Memory/VirtualMemory/Grow.antt =====
-- VirtualMemory::map (core/tachyon.memory/x86_64/VirtualMemory.cc) for a small page where the page table
-- has to be allocated.
use mathlib.Core.Path.{subst}
use tachyon.Base.{
  ℕ, ◌+◌, ◌*◌, ◌/◌, ◌%◌, ◌^◌, ◌≤◌, ◌<◌, ◌≡◌, refl, sym, ap, ◌∙◌, true, false, some, arith, ◌==◌, ok,
}
use tachyon.Memory.PhysicalMemory.{PhysicalMemory}
use tachyon.Memory.TempMap.{
  Machine, is_present, is_large, pstruct_addr, load, store, write, allocate_pstruct_any,
}
use tachyon.Memory.TempMap.Entries.{is_present_lem, is_large_lem, pstruct_addr_lem}
use tachyon.Memory.TempMap.Slots.{IsValid, unused, Mapped, Mapped-Keeps}
use tachyon.Memory.Paging.{entry, pml4_index, pdpt_index, pd_index, pt_index}
use tachyon.Memory.VirtualMemory.{
  map_structure, enter, descend, descend_pd, split_virtual_and_map, map_page,
}
use tachyon.Memory.VirtualMemory.Path.{At, Level, load-At, At-Keeps, map_structure-Level}
use tachyon.Memory.VirtualMemory.Levels.{index_below, store-Mapped}
use tachyon.Memory.VirtualMemory.Reaches.{Reaches, Split, level_at}
use tachyon.Memory.VirtualMemory.Supply.{
  zeroed, Mapped-same, IsSupplied, Allocated, allocate_pstruct_any-Allocated,
}
use tachyon.Memory.VirtualMemory.Map.{NewPage, map_in-NewPage, map_page_small}
use tachyon.Memory.VirtualMemory.Lacks.{
  Lacks, Apart, table_entry, table_entry_lem, grown_other, entry_apart,
}

module _ (fuel : ℕ) (m : Machine) (space virt : ℕ) (valid : IsValid m) (whole : space % 4096 ≡ 0)
    (word : space < 2 ^ 64) (r : Lacks m.ram space virt) (physical' : PhysicalMemory) (addr : ℕ)
    (supplied : IsSupplied fuel m.physical physical' addr) (apart : Apart space addr r)
    (room : 9 ≤ unused m.temp_mappings) where
  abbrev pd : ℕ
  pd = pstruct_addr r.e3

  abbrev pd_place : ℕ
  pd_place = pd / 8 + pd_index virt

  -- The memory with the page table in place.
  abbrev pub grown : Machine
  grown = record m {
    ram = write pd_place (table_entry addr) (zeroed (addr / 8) m.ram);
    physical = physical';
  }

  l1 : Level m m space 8 (map_structure space m)
  l1 = map_structure-Level m space valid whole word 8 room

  l2 : Level m l1.n' (pstruct_addr r.e4) 7 (descend fuel false l1.virt (pml4_index virt) l1.n')
  l2 =
      level_at fuel false m l1.n' space l1.virt 7 (pml4_index virt) r.e4 l1.at (index_below _) r.at4
        r.present4

  l3 : Level m l2.n' pd 6 (descend fuel false l2.virt (pdpt_index virt) l2.n')
  l3 =
      level_at fuel false m l2.n' (pstruct_addr r.e4) l2.virt 6 (pdpt_index virt) r.e3 l2.at
        (index_below _) r.at3 r.present3

  load_absent : load (l3.virt + 8 * pd_index virt) l3.n' ≡ ok (entry m.ram pd (pd_index virt))
  load_absent = load-At m l3.n' pd l3.virt 6 (pd_index virt) l3.at (index_below _)

  supply : Allocated l3.n' physical' addr (allocate_pstruct_any fuel l3.n')
  supply =
      allocate_pstruct_any-Allocated fuel l3.n' physical' addr l3.at.valid
        (subst (λ (p : PhysicalMemory). IsSupplied fuel p physical' addr) (sym l3.at.same_physical)
          supplied)
        (omega (arith, l3.at.room))

  pd-Mapped : Mapped supply.n' pd l3.virt
  pd-Mapped = Mapped-Keeps pd l3.virt supply.keeps l3.at.mapped

  -- The machine once the entry is stored.
  abbrev entered : Machine
  entered = record supply.n' { ram = write pd_place (table_entry addr) supply.n'.ram }

  entered_ram : entered.ram ≡ grown.ram
  entered_ram =
      ap (write pd_place (table_entry addr)) (supply.ram_of ∙ ap (zeroed (addr / 8)) l3.at.same_ram)

  stores : store (l3.virt + 8 * pd_index virt) (table_entry addr) supply.n' ≡ ok entered
  stores =
      store-Mapped supply.n' pd l3.virt (pd_index virt) l3.at.whole pd-Mapped (index_below _)
        (table_entry addr)

  new_word : table_entry addr < 2 ^ 64
  new_word = omega (arith, table_entry_lem addr supplied.whole, supplied.word, supplied.whole)

  grown-IsValid : IsValid grown
  grown-IsValid = record { ten = valid.ten; words = λ x. ground (arith, valid.words x, new_word) }

  pd-At : At grown pd entered l3.virt 5
  pd-At = record {
    valid = record {
      ten = supply.ten;
      words =
          λ x. subst (λ (ram : ℕ → ℕ). ram x < 2 ^ 64) (sym entered_ram) (grown-IsValid.words x);
    };
    whole = l3.at.whole;
    mapped = Mapped-same pd l3.virt refl pd-Mapped;
    same_ram = entered_ram;
    same_physical = supply.physical_of;
    room = omega (arith, l3.at.room, supply.one);
  }

  here : entry grown.ram pd (pd_index virt) ≡ table_entry addr
  here = let self : (pd_place == pd_place) ≡ true = ground arith in rw self

  new_present : is_present (table_entry addr) ≡ true
  new_present =
      ap is_present (table_entry_lem addr supplied.whole)
      ∙ is_present_lem (addr + 3)
      ∙ ground (arith, supplied.whole)

  new_small : is_large (table_entry addr) ≡ false
  new_small =
      ap is_large (table_entry_lem addr supplied.whole)
      ∙ is_large_lem (addr + 3)
      ∙ ground (arith, supplied.whole)

  new_addr : pstruct_addr (table_entry addr) ≡ addr
  new_addr =
      pstruct_addr_lem (table_entry addr) new_word
      ∙ omega (arith, table_entry_lem addr supplied.whole, supplied.whole)

  l4 :
      Level grown entered
        (pstruct_addr (table_entry addr))
        4
        (descend fuel false l3.virt (pd_index virt) entered)
  l4 =
      level_at fuel false grown entered pd l3.virt 4 (pd_index virt) (table_entry addr) pd-At
        (index_below _) here new_present

  -- With the entry present, the descent only enters the page table.
  enters : enter l3.virt (pd_index virt) entered ≡ ok (l4.n', some l4.virt)
  enters =
      let loaded : load (l3.virt + 8 * pd_index virt) entered ≡ ok (table_entry addr) =
        load-At grown entered pd l3.virt 5 (pd_index virt) pd-At (index_below _) ∙ ap ok here in
      let only_enters : descend fuel false l3.virt (pd_index virt) entered
          ≡ enter l3.virt (pd_index virt) entered =
        unfold descend in rw (loaded, new_present) refl in
      sym only_enters ∙ l4.returns

  descends : descend fuel false l3.virt (pd_index virt) l3.n' ≡ ok (l4.n', some l4.virt)
  unfolding descend
  descends = rw (load_absent, r.missing, supply.returns, stores) enters

  reaches : Reaches grown.ram space virt (addr / 8 + pt_index virt)
  reaches = record {
    e4 = r.e4;
    e3 = r.e3;
    e2 = table_entry addr;
    at4 =
        grown_other pd_place (table_entry addr) addr m.ram (space / 8 + pml4_index virt)
          (omega (
            arith,
            whole,
            l3.at.whole,
            apart.pd_pml4,
            index_below (virt / 2 ^ 39),
            index_below (virt / 2 ^ 21),
          ))
          (entry_apart space addr (pml4_index virt) whole supplied.whole apart.not_pml4
            (index_below _))
        ∙ r.at4;
    at3 =
        grown_other pd_place (table_entry addr) addr m.ram (pstruct_addr r.e4 / 8 + pdpt_index virt)
          (omega (
            arith,
            l2.at.whole,
            l3.at.whole,
            apart.pd_pdpt,
            index_below (virt / 2 ^ 30),
            index_below (virt / 2 ^ 21),
          ))
          (entry_apart (pstruct_addr r.e4) addr (pdpt_index virt) l2.at.whole supplied.whole
            apart.not_pdpt (index_below _))
        ∙ r.at3;
    at2 = here;
    present4 = r.present4;
    present3 = r.present3;
    present2 = new_present;
    small = new_small;
    place_of = ap (λ (t : ℕ). t / 8 + pt_index virt) (sym new_addr);
  }

  vacant : is_present (grown.ram (addr / 8 + pt_index virt)) ≡ false
  vacant = ap is_present zero_there ∙ is_present_lem 0
    where
      zero_there : grown.ram (addr / 8 + pt_index virt) ≡ 0
      zero_there =
          let other : (addr / 8 + pt_index virt == pd_place) ≡ false = ground (
            arith,
            entry_apart pd addr (pd_index virt) l3.at.whole supplied.whole apart.not_pd
                (index_below _),
            index_below (virt / 2 ^ 12),
          ) in
          rw other (ground (arith, index_below (virt / 2 ^ 12)))

  splits :
      Split grown space virt
        (addr / 8 + pt_index virt)
        4
        reaches
        (split_virtual_and_map fuel space virt false false m)
  unfolding reaches
  splits = record {
    n = l4.n';
    tables = record { pml4 = l1.virt; pdpt = l2.virt; pd = l3.virt; pt = l4.virt };
    returns =
        unfold split_virtual_and_map descend_pd in
        rw (l1.returns, l2.returns, l3.returns, load_absent, descends);
    pd_at =
        At-Keeps grown entered l4.n' pd l3.virt 5 4 (pstruct_addr (table_entry addr)) l4.virt pd-At
          l4.at l4.keeps;
    pt_at = l4.at;
  }

  -- Where the page table is absent, the allocator supplies a page for it that is not at a multiple of
  -- 2 MiB, and nine temporary mappings are unused, map of a small page returns: the page is zeroed and
  -- entered in the page directory, and the entry of the address is all that changes besides. The
  -- processor's walk ends at that entry, and getMappedAddr then gives the address of the page.
  pub map_page-grown :
      (q flags : ℕ)
      → is_large flags ≡ false
      → q * 4096 < 2 ^ 64
      → flags < 4096
      → NewPage grown space virt
          (addr / 8 + pt_index virt)
          q
          flags
          (map_page fuel space virt (q * 4096) flags m)
  map_page-grown q flags small page fits =
      subst (NewPage grown space virt (addr / 8 + pt_index virt) q flags)
        (sym (map_page_small fuel space virt (q * 4096) flags m small))
        (map_in-NewPage grown space virt (addr / 8 + pt_index virt) q flags reaches _ splits
          grown-IsValid whole word small page fits vacant)
