-- ===== src/Memory/X86/VirtualMemory/Absent.antt =====
-- The virtual memory of the x86 build (core/tachyon.memory/x86/VirtualMemory.cc) where the page table
-- is absent.
use tachyon.Base.{ℕ, ◌+◌, ◌*◌, ◌≤◌, ◌<◌, ◌≡◌, refl, false, arith, get_or, set, ok, fatal}
use tachyon.Memory.TempMap.{is_present}
use tachyon.Memory.TempMap.Slots.{unused}
use tachyon.Memory.PhysicalPages.{PhysicalPages}
use tachyon.Memory.X86.TempMap.{Machine, tempmap_addr, temp_entry, load}
use tachyon.Memory.X86.TempMap.Slots.{Opened, with_entries, pstruct_map-Opened, load_entry}
use tachyon.Memory.X86.VirtualMemory.{
  pd_index, entry, descend_pd, split_virtual_and_map, unmap, get_mapped_addr,
}
use tachyon.Memory.X86.VirtualMemory.Split.{
  IsValid, IsHidden, opened, slot_below, get_opened, tempmap_addr_pos, pd_index_below,
}

-- The page directory is there, the page table is not.
pub record Absent {S : Type 0} (m : Machine S) (space virt : ℕ) : Type 0 where
  pub valid : IsValid m
  pub space_hidden : IsHidden m space
  pub missing : is_present (entry m.ram space (pd_index virt)) ≡ false
  pub room : 2 ≤ unused m.temp_mappings

module _ {S : Type 0} (m : Machine S) (space virt : ℕ) (a : Absent m space virt) where
  pub open_space : Opened m space
  open_space =
      pstruct_map-Opened m space a.space_hidden.page a.space_hidden.missing (omega (arith, a.room))

  abbrev pub m1 : Machine S
  m1 = with_entries m (opened m space open_space.at)

  pub space_below : open_space.at.slot < 10
  space_below = slot_below m a.valid space open_space.at

  pub load_absent :
      load (tempmap_addr open_space.at.slot + 4 * pd_index virt) m1
      ≡ ok (entry m.ram space (pd_index virt))
  load_absent =
      load_entry m1 open_space.at.slot space space_below a.space_hidden.page
        (get_opened m a.valid space open_space.at) (pd_index virt) (pd_index_below virt)

-- getMappedAddr without a page table returns 0, and one more temporary mapping is in use afterwards.
pub record Left (pages : PhysicalPages) (m : Machine pages.State) (space virt : ℕ) : Type 0 where
  pub slot : ℕ
  pub inside : slot < 10
  pub vacant : get_or m.temp_mappings slot 0 ≡ 0
  pub returns :
      get_mapped_addr pages space virt m
      ≡ ok (with_entries m (set m.temp_mappings slot (temp_entry space)), 0)
  pub unmap_stops : unmap pages space virt m ≡ fatal

-- On x86, where the page table is absent, two temporary mappings are unused and the page directory
-- has none, getMappedAddr returns 0 and leaves a temporary mapping of the page directory in use;
-- unmap stops the kernel.
pub get_mapped_addr-Left :
    (pages : PhysicalPages) (m : Machine pages.State) (space virt : ℕ)
    → Absent m space virt
    → Left pages m space virt
get_mapped_addr-Left pages m space virt a =
    let o = open_space m space virt a in
    let below = space_below m space virt a in
    record {
      slot = o.at.slot;
      inside = below;
      vacant = o.at.vacant;
      returns =
          unfold get_mapped_addr split_virtual_and_map descend_pd in
          rw (o.returns, tempmap_addr_pos o.at.slot below, load_absent m space virt a, a.missing)
            refl;
      unmap_stops =
          unfold unmap split_virtual_and_map descend_pd in
          rw (o.returns, tempmap_addr_pos o.at.slot below, load_absent m space virt a, a.missing);
    }
