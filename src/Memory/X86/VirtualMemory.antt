-- ===== src/Memory/X86/VirtualMemory.antt =====
-- VirtualMemory of the x86 build (core/tachyon.memory/x86/VirtualMemory.cc): a page directory with
-- 1024 entries and page tables with 1024 entries, of four bytes each.
mod Split
mod Map
mod Absent
mod Grow
mod Supply
mod Spaces
mod Tests
use tachyon.Base.{
  ℕ, zero, suc, ◌+◌, ◌-◌, ◌*◌, ◌/◌, ◌%◌, ◌^◌, ◌≤◌, ◌<◌, min, bit_and, bit_or, ◌≡◌, refl, sym, ap,
  ◌∙◌, ◌≢◌, ◌↔◌, ◌⊎◌, inl, inr, Bool, true, false, not, ◌&&◌, ◌||◌, Option, none, some, List, [],
  ◌∷◌, ◌++◌, map, arith, ltb, leb, ◌==◌, if◌then◌else◌, ltb→lt, lt→ltb, le→ltb, leb→le, le→leb,
  lt→leb, ==_iff, same, same→eq, Bool-cases, Option-cases, passes_below, passes_below_sound, length,
  get_elem?, get_or, set, take, drop, replicate, All, length-append, length-set, length-replicate,
  get_or-set, get_or-replicate, get_or-replicate_lt, get_or_ext, All-set, All-get_or, All-replicate,
  Outcome, ok, fatal, out_of_fuel, ◌>>=◌, ◌>>◌, kassert, >>=-eq-ok,
}
use tachyon.Base.Bits.{shr}
use tachyon.Memory.TempMap.{page_present, page_writable, is_present}
use tachyon.Memory.PhysicalPages.{PhysicalPages}
use tachyon.Memory.X86.TempMap.{
  Machine, pstruct_addr, pstruct_map, pstruct_unmap, load, store, write, allocate_pstruct_any,
  free_pstruct_any,
}

abbrev pub pd_index : ℕ → ℕ
pd_index virt = bit_and (shr virt 22) 0x3FF

abbrev pub pt_index : ℕ → ℕ
pt_index virt = bit_and (shr virt 12) 0x3FF

-- The entry at an index of the structure at a physical address, and the address of an access as the
-- processor translates it.
abbrev pub entry : (ℕ → ℕ) → ℕ → ℕ → ℕ
entry ram table i = ram (table / 4 + i)

unfoldable pub translate : (ℕ → ℕ) → ℕ → ℕ → Option ℕ
translate ram space virt =
    let e = entry ram space (pd_index virt) in
    let p = entry ram (pstruct_addr e) (pt_index virt) in
    if is_present e && is_present p then some (pstruct_addr p + virt % 4096) else none

-- The out parameters of splitVirtualAndMap.
pub record Structures : Type 0 where
  pub pd : ℕ
  pub pt : ℕ

module _ {S : Type 0} where
  unfoldable pub enter_pt : ℕ → ℕ → Machine S → Outcome (Machine S × Option Structures)
  enter_pt pd virt m = do
    e ← load (pd + 4 * pd_index virt) m
    (m', pt) ← pstruct_map (pstruct_addr e) m
    ok (m', if pt == 0 then none else some (record { pd = pd; pt = pt }))

  unfoldable pub unmap_tables : Structures → Machine S → Machine S
  unmap_tables s m = pstruct_unmap s.pd (pstruct_unmap s.pt m)

  abbrev pub map_in : Option Structures → ℕ → ℕ → ℕ → Machine S → Outcome (Machine S)
  map_in none virt phys flags m = fatal
  map_in (some s) virt phys flags m = load (s.pt + 4 * pt_index virt) m >>= λ p.
      if is_present p
      then fatal
      else store (s.pt + 4 * pt_index virt) (bit_or (bit_or phys page_present) flags) m
        >>= (λ m'. ok (unmap_tables s m'))

  abbrev pub unmap_in : Option Structures → ℕ → Machine S → Outcome (Machine S)
  unmap_in none virt m = fatal
  unmap_in (some s) virt m = store (s.pt + 4 * pt_index virt) 0 m >>= λ m'. ok (unmap_tables s m')

  abbrev pub mapped_in : Option Structures → ℕ → Machine S → Outcome (Machine S × ℕ)
  mapped_in none virt m = ok (m, 0)
  mapped_in (some s) virt m =
      load (s.pt + 4 * pt_index virt) m >>= λ p. ok (unmap_tables s m, pstruct_addr p)

  -- The store through the address of the new page directory, used as a pointer in the active
  -- address space `current`.
  abbrev pub store_at : Option ℕ → ℕ → Machine S → Outcome (Machine S)
  store_at none v m = fatal
  store_at (some p) v m = ok (record m { ram = write (p / 4) v m.ram })

module _ (pages : PhysicalPages) where
  open pages use {State}

  unfoldable pub descend_pd :
      ℕ → ℕ → Bool → Machine State → Outcome (Machine State × Option Structures)
  descend_pd pd virt force_present m = load (pd + 4 * pd_index virt) m >>= λ e.
      if is_present e
      then enter_pt pd virt m
      else if force_present
      then ok (m, none)
      else allocate_pstruct_any pages m >>= (λ (m1, addr).
        store (pd + 4 * pd_index virt) (bit_or (bit_or addr page_present) page_writable) m1
        >>= (λ m2. enter_pt pd virt m2))

  unfoldable pub split_virtual_and_map :
      ℕ → ℕ → Bool → Machine State → Outcome (Machine State × Option Structures)
  split_virtual_and_map space virt force_present m = do
    (m1, pd) ← pstruct_map space m
    if pd == 0 then ok (m1, none) else descend_pd pd virt force_present m1

  -- `map_page` is VirtualMemory::map.
  unfoldable pub map_page : ℕ → ℕ → ℕ → ℕ → Machine State → Outcome (Machine State)
  map_page space virt phys flags m =
      split_virtual_and_map space virt false m >>= (λ (m', s). map_in s virt phys flags m')

  unfoldable pub unmap : ℕ → ℕ → Machine State → Outcome (Machine State)
  unmap space virt m = split_virtual_and_map space virt true m >>= (λ (m', s). unmap_in s virt m')

  unfoldable pub get_mapped_addr : ℕ → ℕ → Machine State → Outcome (Machine State × ℕ)
  get_mapped_addr space virt m =
      split_virtual_and_map space virt true m >>= (λ (m', s). mapped_in s virt m')

  -- `kernel_pd` is the address of x86_pg_pd.
  unfoldable pub new_vspace : ℕ → ℕ → Machine State → Outcome (Machine State × ℕ)
  new_vspace current kernel_pd m = do
    (m1, space) ← allocate_pstruct_any pages m
    m2 ←
        store_at (translate m1.ram current (space + 4 * 4))
          (bit_or (bit_or kernel_pd page_present) page_writable) m1
    ok (m2, space)

  -- The loop of deleteVSpace, from an index on for a number of entries.
  unfoldable pub delete_pd : ℕ → ℕ → ℕ → Machine State → Outcome (Machine State)
  delete_pd zero i pd m = ok m
  delete_pd (suc count) i pd m = do
    e ← load (pd + 4 * i) m
    m' ← if is_present e then free_pstruct_any pages e m else ok m
    delete_pd count (i + 1) pd m'

  unfoldable pub delete_vspace : ℕ → Machine State → Outcome (Machine State)
  delete_vspace space m = do
    (m1, pd) ← pstruct_map space m
    m2 ← delete_pd 1024 0 pd m1
    free_pstruct_any pages space (pstruct_unmap pd m2)
