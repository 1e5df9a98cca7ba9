-- ===== src/Memory/X86/VirtualMemory/Spaces.antt =====
-- newVSpace and deleteVSpace of the x86 build (core/tachyon.memory/x86/VirtualMemory.cc).
use tachyon.Base.{
  ℕ, zero, suc, ◌+◌, ◌*◌, ◌/◌, ◌≤◌, ◌<◌, bit_or, ◌≡◌, refl, ◌≢◌, inl, inr, Bool, true, false, none,
  some, List, arith, ◌==◌, if◌then◌else◌, Bool-cases, get_or, Outcome, ok, fatal, overrun,
  out_of_fuel, ◌>>=◌,
}
use tachyon.Memory.TempMap.{is_present, page_present, page_writable}
use tachyon.Memory.TempMap.Slots.{unused}
use tachyon.Memory.PhysicalPages.{PhysicalPages}
use tachyon.Memory.X86.TempMap.{
  Machine, pstruct_addr, tempmap_addr, temp_entry, write, zeroed, pstruct_unmap, load,
  free_pstruct_any,
}
use tachyon.Memory.X86.TempMap.Slots.{IsPage, Opened, pstruct_map-Opened, load_entry}
use tachyon.Memory.X86.VirtualMemory.{entry, translate, new_vspace, delete_pd, delete_vspace}
use tachyon.Memory.X86.VirtualMemory.Supply.{allocates}
use tachyon.Memory.X86.VirtualMemory.Split.{
  IsValid, IsHidden, opened, slot_below, get_opened, release-opened,
}

-- newVSpace writes the kernel entry where the active address space maps the address of the new page
-- directory.
pub record Created (pages : PhysicalPages) (m : Machine pages.State) (current kernel_pd : ℕ)
    (s : pages.State) (addr : ℕ) : Type 0 where
  pub unmapped :
      translate (zeroed (addr / 4) m.ram) current (addr + 4 * 4) ≡ none
      → new_vspace pages current kernel_pd m ≡ fatal
  pub identity :
      translate (zeroed (addr / 4) m.ram) current (addr + 4 * 4) ≡ some (addr + 4 * 4)
      → new_vspace pages current kernel_pd m
        ≡ ok (
          record m {
            ram =
                write
                  ((addr + 4 * 4) / 4)
                  (bit_or (bit_or kernel_pd page_present) page_writable)
                  (zeroed (addr / 4) m.ram);
            physical = s;
          },
          addr,
        )

-- With a page supplied for it, newVSpace clears the page, gives its temporary mapping back, and
-- writes the kernel entry through the address of the page in the active address space: where that
-- address is mapped to itself, entry 4 of the page is set and newVSpace returns the page; where it is
-- not mapped, the kernel faults.
pub new_vspace-Created :
    (pages : PhysicalPages) (m : Machine pages.State) (current kernel_pd : ℕ) (s : pages.State)
    (addr : ℕ)
    → IsValid m
    → pages.allocate_page m.physical ≡ ok (s, addr)
    → IsHidden m addr
    → addr ≢ 0
    → 0 < unused m.temp_mappings
    → Created pages m current kernel_pd s addr
new_vspace-Created pages m current kernel_pd s addr valid allocated hidden some_page room =
    let e = allocates pages m valid s addr allocated hidden some_page room in
    record {
      unmapped = λ absent_page. unfold new_vspace in rw (e, absent_page);
      identity = λ same_page. unfold new_vspace in rw (e, same_page) refl;
    }

module _ (pages : PhysicalPages) where
  open pages use {State, free_page}

  -- The release of a page by its entry, unless the entry is 0.
  abbrev pub release_page : ℕ → State → Outcome State
  release_page e s = if e == 0 then ok s else free_page (pstruct_addr e) s

  -- The release of the page tables that are present among `count` entries from `i` on, in order.
  unfoldable pub release_tables : (ℕ → ℕ) → ℕ → ℕ → ℕ → State → Outcome State
  release_tables ram space zero i s = ok s
  release_tables ram space (suc count) i s = do
    s' ← if is_present (entry ram space i) then release_page (entry ram space i) s else ok s
    release_tables ram space count (i + 1) s'

  abbrev pub with_physical : Machine State → State → Machine State
  with_physical m s = record m { physical = s }

  -- free_pstruct_any works on the allocator only.
  free_only :
      (e : ℕ) (m : Machine State)
      → free_pstruct_any pages e m ≡ (release_page e m.physical >>= λ s. ok (with_physical m s))
  unfolding free_pstruct_any
  free_only e m = elim (Bool-cases (e == 0)) [ inl h ↦ rw h refl | inr h ↦ rw h refl ]

  freed_entry :
      (b : Bool) (e : ℕ) (m : Machine State)
      → (if b then free_pstruct_any pages e m else ok m)
        ≡ ((if b then release_page e m.physical else ok m.physical) >>= λ s. ok (with_physical m s))
  freed_entry true e m = free_only e m
  freed_entry false e m = refl

  module _ (es : List ℕ) (ram : ℕ → ℕ) (slot space : ℕ) (low : slot < 10) (page : IsPage space)
      (here : get_or es slot 0 ≡ temp_entry space) where
    abbrev at_state : State → Machine State
    at_state s = record { temp_mappings = es; ram = ram; physical = s }

    loads :
        (s : State) (i : ℕ)
        → i < 1024
        → load (tempmap_addr slot + 4 * i) (at_state s) ≡ ok (entry ram space i)
    loads s i inside = load_entry (at_state s) slot space low page here i inside

    delete_loop :
        (count i : ℕ) (s : State)
        → i + count ≤ 1024
        → delete_pd pages count i (tempmap_addr slot) (at_state s)
          ≡ (release_tables ram space count i s >>= λ s'. ok (at_state s'))
    unfolding delete_pd release_tables
    delete_loop zero i s bound = refl
    delete_loop (suc count) i s bound =
        rw
          (
            loads s i (omega arith),
            freed_entry (is_present (entry ram space i)) (entry ram space i) (at_state s),
          )
          (after
            (if is_present (entry ram space i) then release_page (entry ram space i) s else ok s)
            (λ s'. delete_loop count (i + 1) s' (omega arith)))
      where
        after :
            (o : Outcome State)
            → ((s' : State)
                → delete_pd pages count (i + 1) (tempmap_addr slot) (at_state s')
                  ≡ (release_tables ram space count (i + 1) s' >>= λ s''. ok (at_state s'')))
            → ((o >>= λ s'. ok (at_state s')) >>= λ m'.
                delete_pd pages count (i + 1) (tempmap_addr slot) m')
              ≡ ((o >>= λ s'. release_tables ram space count (i + 1) s') >>= λ s''.
                  ok (at_state s''))
        after (ok s') loop = loop s'
        after fatal loop = refl
        after overrun loop = refl
        after out_of_fuel loop = refl

  -- On x86, where a temporary mapping is unused and the page directory has none, deleteVSpace
  -- releases, in the order of the page directory, each page table that is present, those of the
  -- kernel included, and then the page directory; the memory and the temporary mappings stay as
  -- they were, and it ends as these releases do.
  pub delete_vspace-releases :
      (m : Machine State) (space : ℕ)
      → IsValid m
      → IsHidden m space
      → 0 < unused m.temp_mappings
      → delete_vspace pages space m ≡ (
          release_tables m.ram space 1024 0 m.physical >>= λ s.
          release_page space s >>= λ s'. ok (with_physical m s'))
  delete_vspace-releases m space valid hidden room =
      let o = pstruct_map-Opened m space hidden.page hidden.missing room in
      unfold delete_vspace in
      rw
        (
          o.returns,
          delete_loop (opened m space o.at) m.ram o.at.slot space (slot_below m valid space o.at)
              hidden.page (get_opened m valid space o.at) 1024 0 m.physical (omega arith),
        )
        (closes (release_tables m.ram space 1024 0 m.physical) o)
    where
      closes :
          (r : Outcome State) (o : Opened m space)
          → ((r >>= λ s. ok (record m { temp_mappings = opened m space o.at; physical = s }))
              >>= λ m2. free_pstruct_any pages space (pstruct_unmap (tempmap_addr o.at.slot) m2))
            ≡ (r >>= λ s. release_page space s >>= λ s'. ok (with_physical m s'))
      closes (ok s) o =
          unfold pstruct_unmap in
          rw (release-opened m valid space o.at) (free_only space (with_physical m s))
      closes fatal o = refl
      closes overrun o = refl
      closes out_of_fuel o = refl
