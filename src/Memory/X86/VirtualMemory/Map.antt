-- ===== src/Memory/X86/VirtualMemory/Map.antt =====
-- map, unmap and getMappedAddr of the x86 build (core/tachyon.memory/x86/VirtualMemory.cc) where the
-- page table is present.
use tachyon.Base.{
  ℕ, ◌+◌, ◌*◌, ◌/◌, ◌%◌, ◌^◌, ◌<◌, bit_or, ◌≡◌, refl, sym, ap, ◌∙◌, ◌≢◌, inl, inr, true, false,
  some, arith, ◌==◌, ==_iff, Bool-cases, ok, fatal,
}
use tachyon.Memory.TempMap.{is_present, page_present}
use tachyon.Memory.TempMap.Entries.{is_present_lem}
use tachyon.Memory.VirtualMemory.{mapping}
use tachyon.Memory.VirtualMemory.Map.{mapping_lem}
use tachyon.Memory.PhysicalPages.{PhysicalPages}
use tachyon.Memory.X86.TempMap.{Machine, pstruct_addr, write}
use tachyon.Memory.X86.TempMap.Slots.{pstruct_addr_lem}
use tachyon.Memory.X86.VirtualMemory.{
  pd_index, pt_index, entry, translate, map_page, unmap, get_mapped_addr,
}
use tachyon.Memory.X86.VirtualMemory.Split.{
  Present, split_virtual_and_map-Split, pd_index_below, pt_index_below,
}

-- The entry that map writes.
module _ (q flags : ℕ) (small : flags < 4096) where
  abbrev pub mapped_entry : ℕ
  mapped_entry = bit_or (bit_or (q * 4096) page_present) flags

  pub mapped_entry_lem : mapped_entry ≡ q * 4096 + (flags / 2 * 2 + 1)
  unfolding mapping
  mapped_entry_lem = mapping_lem q flags small

  pub mapped_entry_present : is_present mapped_entry ≡ true
  mapped_entry_present = ap is_present mapped_entry_lem ∙ is_present_lem _ ∙ ground arith

  pub mapped_entry_word : q * 4096 < 2 ^ 32 → mapped_entry < 2 ^ 32
  mapped_entry_word fits = omega (arith, mapped_entry_lem)

  pub mapped_entry_page : q * 4096 < 2 ^ 32 → pstruct_addr mapped_entry ≡ q * 4096
  mapped_entry_page fits =
      ap pstruct_addr mapped_entry_lem ∙ pstruct_addr_lem _ (omega arith) ∙ omega arith

pub write_here : (a v : ℕ) (ram : ℕ → ℕ) → write a v ram a ≡ v
write_here a v ram = ground arith

pub write_there : (a v : ℕ) (ram : ℕ → ℕ) (x : ℕ) → x ≢ a → write a v ram x ≡ ram x
write_there a v ram x other = ground arith

module _ {S : Type 0} (m : Machine S) (space virt table : ℕ) (p : Present m space virt table) where
  abbrev pub place : ℕ
  place = table / 4 + pt_index virt

  -- The entry of the page table is none of the page directory.
  pub place_apart : space / 4 + pd_index virt ≢ place
  place_apart same_place = p.other (
      omega (
        arith,
        same_place,
        p.space_hidden.page.whole,
        p.table_hidden.page.whole,
        pd_index_below virt,
        pt_index_below virt,
      ))

  -- The page table stays present under a write to its entry.
  module _ (v : ℕ) where
    abbrev pub written : Machine S
    written = record m { ram = write place v m.ram }

    same_pd : entry written.ram space (pd_index virt) ≡ entry m.ram space (pd_index virt)
    same_pd = write_there place v m.ram (space / 4 + pd_index virt) place_apart

    pub Present-written : v < 2 ^ 32 → Present written space virt table
    Present-written word = record {
      valid = record { ten = p.valid.ten; words = λ x. ground (arith, p.valid.words x) };
      space_hidden = record { page = p.space_hidden.page; missing = p.space_hidden.missing };
      present = ap is_present same_pd ∙ p.present;
      table_of = ap pstruct_addr same_pd ∙ p.table_of;
      table_hidden = record { page = p.table_hidden.page; missing = p.table_hidden.missing };
      other = p.other;
      room = p.room;
    }

  pub translate-Present :
      is_present (m.ram place) ≡ true
      → translate m.ram space virt ≡ some (pstruct_addr (m.ram place) + virt % 4096)
  unfolding translate
  translate-Present here = rw (p.table_of, p.present, here)

module _ (pages : PhysicalPages) (m : Machine pages.State) (space virt table : ℕ)
    (p : Present m space virt table) where
  -- Where the page table is present, getMappedAddr returns the page of its entry, and leaves the
  -- memory, the pages in use and the temporary mappings as they were.
  pub get_mapped_addr_present :
      get_mapped_addr pages space virt m ≡ ok (m, pstruct_addr (m.ram (place m space virt table p)))
  unfolding get_mapped_addr
  get_mapped_addr_present =
      let s = split_virtual_and_map-Split pages m space virt table true p in
      rw (s.returns, s.load_pt, s.restores m.ram) refl

  pub unmap_present : unmap pages space virt m ≡ ok (written m space virt table p 0)
  unfolding unmap
  unmap_present =
      let s = split_virtual_and_map-Split pages m space virt table true p in
      rw (s.returns, s.store_pt 0, s.restores (write (place m space virt table p) 0 m.ram)) refl

  pub map_page_vacant :
      (phys flags : ℕ)
      → is_present (m.ram (place m space virt table p)) ≡ false
      → map_page pages space virt phys flags m
        ≡ ok (written m space virt table p (bit_or (bit_or phys page_present) flags))
  unfolding map_page
  map_page_vacant phys flags vacant =
      let s = split_virtual_and_map-Split pages m space virt table false p in
      let v = bit_or (bit_or phys page_present) flags in
      rw
        (
          s.returns,
          s.load_pt,
          vacant,
          s.store_pt v,
          s.restores (write (place m space virt table p) v m.ram),
        )
        refl

  pub map_page_occupied :
      (phys flags : ℕ)
      → is_present (m.ram (place m space virt table p)) ≡ true
      → map_page pages space virt phys flags m ≡ fatal
  unfolding map_page
  map_page_occupied phys flags present =
      let s = split_virtual_and_map-Split pages m space virt table false p in
      rw (s.returns, s.load_pt, present)

-- map, and then unmap.
pub record Undone (pages : PhysicalPages) (m : Machine pages.State) (space virt q flags : ℕ)
    : Type 0 where
  pub mapped : Machine pages.State
  pub undone : Machine pages.State
  pub map_returns : map_page pages space virt (q * 4096) flags m ≡ ok mapped
  pub translates : translate mapped.ram space virt ≡ some (q * 4096 + virt % 4096)
  pub lookup : get_mapped_addr pages space virt mapped ≡ ok (mapped, q * 4096)
  pub again : map_page pages space virt (q * 4096) flags mapped ≡ fatal
  pub unmap_returns : unmap pages space virt mapped ≡ ok undone
  pub same_ram : (x : ℕ) → undone.ram x ≡ m.ram x
  pub same_rest : (undone.temp_mappings ≡ m.temp_mappings) × (undone.physical ≡ m.physical)

-- On x86, where the page table is present, the entry of the page is zero, two temporary mappings
-- are unused, and the page directory and the page table, which are different pages, have none: map
-- of a page with flags below 4096 and then unmap leave every word, the temporary mappings and the
-- pages in use as they were; in between the processor translates the address to the page,
-- getMappedAddr gives the page, and a second map stops the kernel.
pub map_page-Undone :
    (pages : PhysicalPages) (m : Machine pages.State) (space virt table q flags : ℕ)
    → Present m space virt table
    → m.ram (table / 4 + pt_index virt) ≡ 0
    → q * 4096 < 2 ^ 32
    → flags < 4096
    → Undone pages m space virt q flags
map_page-Undone pages m space virt table q flags p vacant fits small =
    let v = mapped_entry q flags small in
    let here = table / 4 + pt_index virt in
    let m' = written m space virt table p v in
    let p' = Present-written m space virt table p v (mapped_entry_word q flags small fits) in
    let is_v : m'.ram here ≡ v = write_here here v m.ram in
    let page : pstruct_addr (m'.ram here) ≡ q * 4096 =
      ap pstruct_addr is_v ∙ mapped_entry_page q flags small fits in
    let is_there = ap is_present is_v ∙ mapped_entry_present q flags small in
    record {
      mapped = m';
      undone = written m' space virt table p' 0;
      map_returns =
          map_page_vacant pages m space virt table p (q * 4096) flags
            (ap is_present vacant ∙ is_present_lem 0);
      translates =
          translate-Present m' space virt table p' is_there
          ∙ ap (λ (t : ℕ). some (t + virt % 4096)) page;
      lookup =
          get_mapped_addr_present pages m' space virt table p' ∙ ap (λ (t : ℕ). ok (m', t)) page;
      again = map_page_occupied pages m' space virt table p' (q * 4096) flags is_there;
      unmap_returns = unmap_present pages m' space virt table p';
      same_ram = λ x. restored here v x vacant;
      same_rest = (refl, refl);
    }
  where
    restored : (a v x : ℕ) → m.ram a ≡ 0 → write a 0 (write a v m.ram) x ≡ m.ram x
    restored a v x empty = elim (Bool-cases (x == a)) [
      | inl h ↦
          let same_place : x ≡ a = (==_iff x a).0 h in rw h (sym (ap m.ram same_place ∙ empty))
      | inr h ↦ rw h
    ]
