-- ===== src/Memory/VirtualMemory/Lookup.antt =====
-- VirtualMemory::getMappedAddr (core/tachyon.memory/x86_64/VirtualMemory.cc).
use tachyon.Base.{
  ℕ, ◌+◌, ◌*◌, ◌%◌, ◌^◌, ◌≤◌, ◌<◌, ◌≡◌, refl, inl, inr, true, false, arith, Bool-cases, Outcome, ok,
}
use tachyon.Memory.TempMap.{Machine, is_present, is_large, pstruct_addr, pstruct_unmap, load}
use tachyon.Memory.TempMap.Slots.{IsValid, unused}
use tachyon.Memory.Paging.{
  Walk, absent, large_page, small_page, entry, walk, walk_pd, walk_pdpt, pml4_index, pdpt_index,
  pd_index, pt_index,
}
use tachyon.Memory.VirtualMemory.{
  map_structure, descend, descend_pd, split_virtual_and_map, mapped_in, get_mapped_addr,
  unmap_tables,
}
use tachyon.Memory.VirtualMemory.Path.{
  Level, load-At, descend-absent, descend-Level, At-Keeps, map_structure-Level,
}
use tachyon.Memory.VirtualMemory.Levels.{index_below}

-- The page of an entry, or 0.
abbrev pub page_of : Walk → ℕ
page_of absent = 0
page_of (large_page e) = pstruct_addr e
page_of (small_page e) = pstruct_addr e

-- A lookup that returns this address, and changes neither the memory nor which pages are in use.
pub record Looked (m : Machine) (addr : ℕ) (r : Outcome (Machine × ℕ)) : Type 0 where
  pub m' : Machine
  pub returns : r ≡ ok (m', addr)
  pub same_ram : m'.ram ≡ m.ram
  pub same_physical : m'.physical ≡ m.physical

module _ (m : Machine) (space virt : ℕ) (valid : IsValid m) (whole : space % 4096 ≡ 0)
    (word : space < 2 ^ 64) (room : 4 ≤ unused m.temp_mappings) where
  first : Level m m space 3 (map_structure space m)
  first = map_structure-Level m space valid whole word 3 (omega arith)

  abbrev e4 : ℕ
  e4 = entry m.ram space (pml4_index virt)

  abbrev e3 : ℕ
  e3 = entry m.ram (pstruct_addr e4) (pdpt_index virt)

  abbrev e2 : ℕ
  e2 = entry m.ram (pstruct_addr e3) (pd_index virt)

  no_pdpt : is_present e4 ≡ false → Looked m 0 (get_mapped_addr space virt m)
  no_pdpt missing = record {
    m' = first.n';
    returns =
        unfold get_mapped_addr split_virtual_and_map mapped_in in
        rw (
          first.returns,
          descend-absent m first.n' space first.virt 3 (pml4_index virt) first.at (index_below _)
              missing,
        );
    same_ram = first.at.same_ram;
    same_physical = first.at.same_physical;
  }

  module _ (present4 : is_present e4 ≡ true) where
    second :
        Level m first.n' (pstruct_addr e4) 2 (descend 0 true first.virt (pml4_index virt) first.n')
    second =
        descend-Level 0 true m first.n' space first.virt 2 (pml4_index virt) first.at
          (index_below _) present4

    no_pd : is_present e3 ≡ false → Looked m 0 (get_mapped_addr space virt m)
    no_pd missing = record {
      m' = second.n';
      returns =
          unfold get_mapped_addr split_virtual_and_map mapped_in in
          rw (
            first.returns,
            second.returns,
            descend-absent m second.n' (pstruct_addr e4) second.virt 2 (pdpt_index virt) second.at
                (index_below _) missing,
          );
      same_ram = second.at.same_ram;
      same_physical = second.at.same_physical;
    }

    module _ (present3 : is_present e3 ≡ true) where
      third :
          Level m second.n'
            (pstruct_addr e3)
            1
            (descend 0 true second.virt (pdpt_index virt) second.n')
      third =
          descend-Level 0 true m second.n' (pstruct_addr e4) second.virt 1 (pdpt_index virt)
            second.at (index_below _) present3

      load_pd : load (third.virt + 8 * pd_index virt) third.n' ≡ ok e2
      load_pd =
          load-At m third.n' (pstruct_addr e3) third.virt 1 (pd_index virt) third.at (index_below _)

      no_pt : is_present e2 ≡ false → Looked m 0 (get_mapped_addr space virt m)
      no_pt missing = record {
        m' = third.n';
        returns =
            unfold get_mapped_addr split_virtual_and_map mapped_in descend_pd in
            rw (
              first.returns,
              second.returns,
              third.returns,
              load_pd,
              missing,
              descend-absent m third.n' (pstruct_addr e3) third.virt 1 (pd_index virt) third.at
                  (index_below _) missing,
            );
        same_ram = third.at.same_ram;
        same_physical = third.at.same_physical;
      }

      module _ (present2 : is_present e2 ≡ true) where
        found_large : is_large e2 ≡ true → Looked m (pstruct_addr e2) (get_mapped_addr space virt m)
        found_large large = record {
          m' =
              unmap_tables
                (record { pml4 = first.virt; pdpt = second.virt; pd = third.virt; pt = 0 })
                third.n';
          returns =
              unfold get_mapped_addr split_virtual_and_map mapped_in descend_pd in
              rw
                (
                  first.returns, second.returns, third.returns, load_pd, present2, large, load_pd,
                  large,
                )
                refl;
          same_ram = unfold unmap_tables pstruct_unmap in third.at.same_ram;
          same_physical = unfold unmap_tables pstruct_unmap in third.at.same_physical;
        }

        fourth :
            Level m third.n'
              (pstruct_addr e2)
              0
              (descend 0 true third.virt (pd_index virt) third.n')
        fourth =
            descend-Level 0 true m third.n' (pstruct_addr e3) third.virt 0 (pd_index virt) third.at
              (index_below _) present2

        load_pd_again : load (third.virt + 8 * pd_index virt) fourth.n' ≡ ok e2
        load_pd_again =
            load-At m fourth.n' (pstruct_addr e3) third.virt 0 (pd_index virt)
              (At-Keeps m third.n' fourth.n' (pstruct_addr e3) third.virt 1 0 (pstruct_addr e2)
                fourth.virt third.at fourth.at fourth.keeps)
              (index_below _)

        found_small :
            is_large e2 ≡ false
            → Looked m
                (pstruct_addr (entry m.ram (pstruct_addr e2) (pt_index virt)))
                (get_mapped_addr space virt m)
        found_small small = record {
          m' =
              unmap_tables
                (record {
                  pml4 = first.virt;
                  pdpt = second.virt;
                  pd = third.virt;
                  pt = fourth.virt;
                })
                (pstruct_unmap fourth.virt fourth.n');
          returns =
              unfold get_mapped_addr split_virtual_and_map mapped_in descend_pd in
              rw
                (
                  first.returns,
                  second.returns,
                  third.returns,
                  load_pd,
                  present2,
                  small,
                  fourth.returns,
                  load_pd_again,
                  small,
                  load-At m fourth.n' (pstruct_addr e2) fourth.virt 0 (pt_index virt) fourth.at
                      (index_below _),
                )
                refl;
          same_ram = unfold unmap_tables pstruct_unmap in fourth.at.same_ram;
          same_physical = unfold unmap_tables pstruct_unmap in fourth.at.same_physical;
        }

  -- With four temporary mappings unused, getMappedAddr returns: the page that the processor's walk
  -- over the structures ends at, or 0 if a structure is absent; the memory and the pages in use stay
  -- as they are.
  pub get_mapped_addr-Looked :
      Looked m (page_of (walk m.ram space virt)) (get_mapped_addr space virt m)
  get_mapped_addr-Looked = elim (Bool-cases (is_present e4)) [
    | inr no4 ↦ unfold walk in rw no4 (no_pdpt no4)
    | inl yes4 ↦ elim (Bool-cases (is_present e3)) [
      | inr no3 ↦ unfold walk walk_pdpt in rw (yes4, no3) (no_pd yes4 no3)
      | inl yes3 ↦ elim (Bool-cases (is_present e2)) [
        | inr no2 ↦ unfold walk walk_pdpt walk_pd in rw (yes4, yes3, no2) (no_pt yes4 yes3 no2)
        | inl yes2 ↦ elim (Bool-cases (is_large e2)) [
          | inl large ↦
              unfold walk walk_pdpt walk_pd in
              rw (yes4, yes3, yes2, large) (found_large yes4 yes3 yes2 large)
          | inr small ↦
              unfold walk walk_pdpt walk_pd in
              rw (yes4, yes3, yes2, small) (found_small yes4 yes3 yes2 small)
        ]
      ]
    ]
  ]
