-- ===== src/Memory/X86/VirtualMemory/Supply.antt =====
-- allocatePStructAny of the x86 build (core/tachyon.memory/x86/VirtualMemory.cc).
use tachyon.Base.{ℕ, ◌/◌, ◌<◌, ◌≡◌, refl, ◌≢◌, false, arith, ◌==◌, ok}
use tachyon.Memory.TempMap.Slots.{unused}
use tachyon.Memory.PhysicalPages.{PhysicalPages}
use tachyon.Memory.X86.TempMap.{Machine, zeroed, pstruct_unmap, allocate_pstruct_any}
use tachyon.Memory.X86.TempMap.Slots.{with_entries, pstruct_map-Opened, zero_page_entry}
use tachyon.Memory.X86.VirtualMemory.Split.{
  IsValid, IsHidden, opened, slot_below, get_opened, release-opened,
}

-- A page for a structure is zeroed, and its temporary mapping is given back.
module _ (pages : PhysicalPages) (m : Machine pages.State) (valid : IsValid m) (s : pages.State)
    (addr : ℕ) (allocated : pages.allocate_page m.physical ≡ ok (s, addr))
    (hidden : IsHidden m addr) (some_page : addr ≢ 0) (room : 0 < unused m.temp_mappings) where
  abbrev taken : Machine pages.State
  taken = record m { physical = s }

  abbrev taken-IsValid : IsValid taken
  taken-IsValid = record { ten = valid.ten; words = valid.words }

  pub allocates :
      allocate_pstruct_any pages m
      ≡ ok (record m { ram = zeroed (addr / 4) m.ram; physical = s }, addr)
  unfolding allocate_pstruct_any pstruct_unmap
  allocates =
      let o = pstruct_map-Opened taken addr hidden.page hidden.missing room in
      let some_addr : (addr == 0) ≡ false = ground (arith, some_page) in
      rw
        (
          allocated,
          some_addr,
          o.returns,
          zero_page_entry (with_entries taken (opened taken addr o.at)) o.at.slot addr
              (slot_below taken taken-IsValid addr o.at) hidden.page
              (get_opened taken taken-IsValid addr o.at),
          release-opened taken taken-IsValid addr o.at,
        )
        refl
