-- ===== src/Memory/VirtualMemory/Unmap.antt =====
-- VirtualMemory::unmap (core/tachyon.memory/x86_64/VirtualMemory.cc).
use tachyon.Base.{ℕ, ◌+◌, ◌/◌, ◌%◌, ◌^◌, ◌≤◌, ◌<◌, ◌≡◌, refl, true, Outcome, ok}
use tachyon.Memory.TempMap.{Machine, pstruct_addr, pstruct_unmap, write}
use tachyon.Memory.TempMap.Slots.{IsValid, unused}
use tachyon.Memory.Paging.{pd_index}
use tachyon.Memory.VirtualMemory.{unmap, unmap_in, unmap_tables}
use tachyon.Memory.VirtualMemory.Reaches.{Reaches, split_virtual_and_map-Split, load_pd, store_pd}

-- What unmap does for a small page: it clears the entry of the page directory.
pub record Cleared (m : Machine) (place : ℕ) (r : Outcome Machine) : Type 0 where
  pub m' : Machine
  pub returns : r ≡ ok m'
  pub only_entry : m'.ram ≡ write place 0 m.ram

-- unmap of a small page whose structures are present returns where four temporary mappings are
-- unused, and clears one entry, that of the page directory, which stands for 512 pages; the entry
-- of the page stays.
pub unmap-Cleared :
    (m : Machine) (space virt place : ℕ)
    → IsValid m
    → space % 4096 ≡ 0
    → space < 2 ^ 64
    → (r : Reaches m.ram space virt place) → 4 ≤ unused m.temp_mappings
    → Cleared m (pstruct_addr r.e3 / 8 + pd_index virt) (unmap space virt m)
unmap-Cleared m space virt place valid whole word r room =
    let s = split_virtual_and_map-Split 0 true m space virt place 0 valid whole word r room in
    record {
      m' =
          unmap_tables s.tables
            (record s.n { ram = write (pstruct_addr r.e3 / 8 + pd_index virt) 0 m.ram });
      returns = unfold unmap unmap_in in rw (s.returns, load_pd s, r.small, store_pd s 0);
      only_entry = unfold unmap_tables pstruct_unmap in refl;
    }
