-- ===== src/Memory/X86/VirtualMemory/Split.antt =====
-- splitVirtualAndMap of the x86 build (core/tachyon.memory/x86/VirtualMemory.cc).
use tachyon.Base.{
  ℕ, ◌+◌, ◌*◌, ◌/◌, ◌^◌, ◌≤◌, ◌<◌, ◌≡◌, refl, ap, ◌∙◌, ◌≢◌, Bool, true, false, Option, none, some,
  List, arith, ◌==◌, length, get_or, set, length-set, get_or-set, Outcome, ok,
}
use tachyon.Base.Bits.{bit_and_mask}
use tachyon.Memory.TempMap.{is_present}
use tachyon.Memory.TempMap.Slots.{unused, unused-set}
use tachyon.Memory.PhysicalPages.{PhysicalPages}
use tachyon.Memory.X86.TempMap.{
  Machine, pstruct_addr, tempmap_addr, find_page, temp_entry, pstruct_unmap, load, store, write,
  release,
}
use tachyon.Memory.X86.TempMap.Slots.{
  IsPage, Vacancy, tempmap_addr_lem, with_entries, Opened, pstruct_map-Opened, load_entry,
  store_entry, release-set, find_page-set,
}
use tachyon.Memory.X86.VirtualMemory.{
  Structures, pd_index, pt_index, entry, enter_pt, descend_pd, split_virtual_and_map, unmap_tables,
}

pub pd_index_below : (virt : ℕ) → pd_index virt < 1024
pd_index_below virt = omega (arith, bit_and_mask 10 (virt / 2 ^ 22))

pub pt_index_below : (virt : ℕ) → pt_index virt < 1024
pt_index_below virt = omega (arith, bit_and_mask 10 (virt / 2 ^ 12))

pub tempmap_addr_pos : (i : ℕ) → i < 10 → (tempmap_addr i == 0) ≡ false
tempmap_addr_pos i h = ground (arith, tempmap_addr_lem i h)

module _ {S : Type 0} where
  pub record IsValid (m : Machine S) : Type 0 where
    pub ten : length m.temp_mappings ≡ 10
    pub words : (x : ℕ) → m.ram x < 2 ^ 32

  -- A page that no temporary mapping shows.
  pub record IsHidden (m : Machine S) (addr : ℕ) : Type 0 where
    pub page : IsPage addr
    pub missing : find_page m.temp_mappings 0 addr ≡ none

  abbrev pub opened : (m : Machine S) (addr : ℕ) → Vacancy m.temp_mappings → List ℕ
  opened m addr o = set m.temp_mappings o.slot (temp_entry addr)

  -- Closing a structure that has just been opened.
  module _ (m : Machine S) (valid : IsValid m) (addr : ℕ) (o : Vacancy m.temp_mappings) where
    pub slot_below : o.slot < 10
    slot_below = omega (arith, valid.ten, o.inside)

    pub release-opened : release (opened m addr o) 0 (tempmap_addr o.slot) ≡ m.temp_mappings
    release-opened =
        let index : o.slot ≡ 0 + o.slot = omega arith in
        ap (λ (t : ℕ). release (opened m addr o) 0 (tempmap_addr t)) index
        ∙ release-set m.temp_mappings 0 o.slot (temp_entry addr) (omega (arith, valid.ten)) o.inside
            o.vacant

    pub get_opened : get_or (opened m addr o) o.slot 0 ≡ temp_entry addr
    get_opened =
        get_or-set m.temp_mappings o.slot o.slot (temp_entry addr) 0 o.inside ∙ ground arith

    pub opened-IsValid : IsValid (with_entries m (opened m addr o))
    opened-IsValid = record {
      ten = length-set m.temp_mappings o.slot (temp_entry addr) ∙ valid.ten;
      words = valid.words;
    }

  -- The page table behind an entry of the page directory that is present.
  pub record Present (m : Machine S) (space virt table : ℕ) : Type 0 where
    pub valid : IsValid m
    pub space_hidden : IsHidden m space
    pub present : is_present (entry m.ram space (pd_index virt)) ≡ true
    pub table_of : pstruct_addr (entry m.ram space (pd_index virt)) ≡ table
    pub table_hidden : IsHidden m table
    pub other : space ≢ table
    pub room : 2 ≤ unused m.temp_mappings

  -- What splitVirtualAndMap has opened, from the machine `m` on, whose memory is `n`'s afterwards.
  pub record Split (n : Machine S) (place : ℕ) (virt : ℕ)
      (r : Outcome (Machine S × Option Structures)) : Type 0 where
    pub es : List ℕ
    pub tables : Structures
    pub returns : r ≡ ok (with_entries n es, some tables)
    pub load_pt : load (tables.pt + 4 * pt_index virt) (with_entries n es) ≡ ok (n.ram place)
    pub store_pt :
        (v : ℕ)
        → store (tables.pt + 4 * pt_index virt) v (with_entries n es)
          ≡ ok (record (with_entries n es) { ram = write place v n.ram })
    pub restores :
        (ram : ℕ → ℕ)
        → unmap_tables tables (record (with_entries n es) { ram = ram }) ≡ record n { ram = ram }

  module _ (m : Machine S) (space virt table : ℕ) (p : Present m space virt table)
      (open_pd : Vacancy m.temp_mappings) where
    abbrev m1 : Machine S
    m1 = with_entries m (opened m space open_pd)

    m1-IsValid : IsValid m1
    m1-IsValid = opened-IsValid m p.valid space open_pd

    open_pt : Opened m1 table
    open_pt =
        pstruct_map-Opened m1 table p.table_hidden.page
          (find_page-set m.temp_mappings 0 open_pd.slot table space p.table_hidden.missing
            p.space_hidden.page p.other)
          (omega (arith, p.room, unused-set m.temp_mappings open_pd.slot (temp_entry space)))

    load_pd :
        load (tempmap_addr open_pd.slot + 4 * pd_index virt) m1
        ≡ ok (entry m.ram space (pd_index virt))
    load_pd =
        load_entry m1 open_pd.slot space (slot_below m p.valid space open_pd) p.space_hidden.page
          (get_opened m p.valid space open_pd) (pd_index virt) (pd_index_below virt)

    pub enter_pt-Split :
        Split m (table / 4 + pt_index virt) virt (enter_pt (tempmap_addr open_pd.slot) virt m1)
    enter_pt-Split = record {
      es = opened m1 table open_pt.at;
      tables = record { pd = tempmap_addr open_pd.slot; pt = tempmap_addr open_pt.at.slot };
      returns =
          unfold enter_pt in
          rw
            (
              load_pd,
              p.table_of,
              open_pt.returns,
              tempmap_addr_pos open_pt.at.slot (slot_below m1 m1-IsValid table open_pt.at),
            )
            refl;
      load_pt =
          load_entry (with_entries m (opened m1 table open_pt.at)) open_pt.at.slot table
            (slot_below m1 m1-IsValid table open_pt.at) p.table_hidden.page
            (get_opened m1 m1-IsValid table open_pt.at) (pt_index virt) (pt_index_below virt);
      store_pt =
          store_entry (with_entries m (opened m1 table open_pt.at)) open_pt.at.slot table
            (slot_below m1 m1-IsValid table open_pt.at) p.table_hidden.page
            (get_opened m1 m1-IsValid table open_pt.at) (pt_index virt) (pt_index_below virt);
      restores = λ ram.
          unfold unmap_tables pstruct_unmap in
          rw (release-opened m1 m1-IsValid table open_pt.at, release-opened m p.valid space open_pd)
            refl;
    }

module _ (pages : PhysicalPages) (m : Machine pages.State) (space virt table : ℕ) (force : Bool)
    (p : Present m space virt table) where
  pub split_virtual_and_map-Split :
      Split m (table / 4 + pt_index virt) virt (split_virtual_and_map pages space virt force m)
  split_virtual_and_map-Split =
      let o =
        pstruct_map-Opened m space p.space_hidden.page p.space_hidden.missing
          (omega (arith, p.room)) in
      let s = enter_pt-Split m space virt table p o.at in
      record {
        es = s.es;
        tables = s.tables;
        returns =
            unfold split_virtual_and_map descend_pd in
            rw
              (
                o.returns,
                tempmap_addr_pos o.at.slot (slot_below m p.valid space o.at),
                load_pd m space virt table p o.at,
                p.present,
              )
              s.returns;
        load_pt = s.load_pt;
        store_pt = s.store_pt;
        restores = s.restores;
      }
