-- ===== src/Memory/VirtualMemory.antt =====
-- VirtualMemory (core/tachyon.memory/x86_64/VirtualMemory.cc): the paging structures of an address
-- space, reached through the temporary mappings. `fuel` is that of the search for a free page.
pub mod Levels
pub mod Path
pub mod Lookup
pub mod Reaches
pub mod Map
pub mod Supply
pub mod Lacks
pub mod Grow
pub mod Unmap
mod Tests
use tachyon.Base.{
  ℕ, zero, suc, ◌+◌, ◌-◌, ◌*◌, ◌/◌, ◌%◌, ◌^◌, ◌≤◌, ◌<◌, min, bit_and, bit_or, ◌≡◌, refl, sym, ap,
  ◌∙◌, ◌≢◌, ◌↔◌, ◌⊎◌, inl, inr, Bool, true, false, not, ◌&&◌, ◌||◌, Option, none, some, List, [],
  ◌∷◌, ◌++◌, map, arith, ltb, leb, ◌==◌, if◌then◌else◌, ltb→lt, lt→ltb, le→ltb, leb→le, le→leb,
  lt→leb, ==_iff, same, same→eq, Bool-cases, Option-cases, passes_below, passes_below_sound, length,
  get_elem?, get_or, set, take, drop, replicate, All, length-append, length-set, length-replicate,
  get_or-set, get_or-replicate, get_or-replicate_lt, get_or_ext, All-set, All-get_or, All-replicate,
  Outcome, ok, fatal, out_of_fuel, ◌>>=◌, ◌>>◌, kassert, >>=-eq-ok,
}
use tachyon.Memory.TempMap.{
  Machine, is_present, is_large, pstruct_addr, page_present, page_writable, page_large, pstruct_map,
  pstruct_unmap, load, store, write, allocate_pstruct_any, free_pstruct_any,
}
use tachyon.Memory.Paging.{pml4_index, pdpt_index, pd_index, pt_index, walk, translated}

-- The out parameters of splitVirtualAndMap. `pt` is 0 where the source leaves it unset.
pub record Structures : Type 0 where
  pub pml4 : ℕ
  pub pdpt : ℕ
  pub pd : ℕ
  pub pt : ℕ

-- A step that may end the split with the result false.
abbrev pub pass {ℓ κ} :
    {A : Type ℓ} {B : Type κ}
    → Option A
    → Machine
    → (A → Machine → Outcome (Machine × Option B))
    → Outcome (Machine × Option B)
pass none m next = ok (m, none)
pass (some a) m next = next a m

-- pstructMap with the test of its result.
unfoldable pub map_structure : ℕ → Machine → Outcome (Machine × Option ℕ)
map_structure phys m =
    pstruct_map phys m >>= (λ (m', virt). ok (m', if virt == 0 then none else some virt))

unfoldable pub enter : ℕ → ℕ → Machine → Outcome (Machine × Option ℕ)
enter table i m = load (table + 8 * i) m >>= λ e. map_structure (pstruct_addr e) m

-- One level: the structure that entry `i` of the table points to, allocated if it is absent and
-- its presence is not forced.
unfoldable pub descend : ℕ → Bool → ℕ → ℕ → Machine → Outcome (Machine × Option ℕ)
descend fuel force_present table i m = load (table + 8 * i) m >>= λ e.
    if is_present e
    then enter table i m
    else if force_present
    then ok (m, none)
    else allocate_pstruct_any fuel m >>= (λ (m1, addr).
      store (table + 8 * i) (bit_or (bit_or addr page_present) page_writable) m1 >>= λ m2.
      enter table i m2)

unfoldable pub descend_pd : ℕ → Bool → Bool → ℕ → ℕ → Machine → Outcome (Machine × Option ℕ)
descend_pd fuel large force_present pd i m = load (pd + 8 * i) m >>= λ e.
    if (if force_present then is_present e && is_large e else large)
    then ok (m, some 0)
    else descend fuel force_present pd i m

unfoldable pub split_virtual_and_map :
    ℕ → ℕ → ℕ → Bool → Bool → Machine → Outcome (Machine × Option Structures)
split_virtual_and_map fuel space virt large force_present m = do
  (m1, r1) ← map_structure space m
  pass r1 m1 (λ pml4 m1. do
    (m2, r2) ← descend fuel force_present pml4 (pml4_index virt) m1
    pass r2 m2 (λ pdpt m2. do
      (m3, r3) ← descend fuel force_present pdpt (pdpt_index virt) m2
      pass r3 m3 (λ pd m3. do
        (m4, r4) ← descend_pd fuel large force_present pd (pd_index virt) m3
        pass r4 m4
            (λ pt m4. ok (m4, some (record { pml4 = pml4; pdpt = pdpt; pd = pd; pt = pt }))))))

unfoldable pub unmap_tables : Structures → Machine → Machine
unmap_tables s m = pstruct_unmap s.pml4 (pstruct_unmap s.pdpt (pstruct_unmap s.pd m))

-- The entry that map writes.
unfoldable pub mapping : ℕ → ℕ → ℕ
mapping phys flags = bit_or (bit_or phys page_present) flags

unfoldable pub map_in : Option Structures → ℕ → ℕ → ℕ → Machine → Outcome Machine
map_in none virt phys flags m = fatal
map_in (some s) virt phys flags m = load (s.pd + 8 * pd_index virt) m >>= λ e.
    if is_large flags
    then if is_present e
      then fatal
      else store (s.pd + 8 * pd_index virt) (mapping phys flags) m
        >>= (λ m'. ok (unmap_tables s m'))
    else if is_large e
    then fatal
    else load (s.pt + 8 * pt_index virt) m >>= λ p.
        if is_present p
        then fatal
        else store (s.pt + 8 * pt_index virt) (mapping phys flags) m
          >>= (λ m'. ok (unmap_tables s (pstruct_unmap s.pt m')))

-- `map_page` is VirtualMemory::map.
unfoldable pub map_page : ℕ → ℕ → ℕ → ℕ → ℕ → Machine → Outcome Machine
map_page fuel space virt phys flags m =
    split_virtual_and_map fuel space virt (is_large flags) false m
    >>= (λ (m', s). map_in s virt phys flags m')

-- The second test for a large page repeats the first, so the entry of the page table is never
-- cleared; a small page clears the entry of the page directory.
unfoldable pub unmap_in : Option Structures → ℕ → Machine → Outcome Machine
unmap_in none virt m = fatal
unmap_in (some s) virt m = load (s.pd + 8 * pd_index virt) m >>= λ e.
    if is_large e
    then load (s.pd + 8 * pd_index virt) m >>= (λ e'.
      if is_large e'
      then ok m
      else store (s.pt + 8 * pt_index virt) 0 m
        >>= (λ m'. ok (unmap_tables s (pstruct_unmap s.pt m'))))
    else store (s.pd + 8 * pd_index virt) 0 m >>= λ m'. ok (unmap_tables s m')

-- The split is forced: it allocates nothing and needs no fuel.
unfoldable pub unmap : ℕ → ℕ → Machine → Outcome Machine
unmap space virt m =
    split_virtual_and_map 0 space virt false true m >>= (λ (m', s). unmap_in s virt m')

unfoldable pub mapped_in : Option Structures → ℕ → Machine → Outcome (Machine × ℕ)
mapped_in none virt m = ok (m, 0)
mapped_in (some s) virt m = load (s.pd + 8 * pd_index virt) m >>= λ e.
    if is_large e
    then ok (unmap_tables s m, pstruct_addr e)
    else load (s.pt + 8 * pt_index virt) m
      >>= (λ p. ok (unmap_tables s (pstruct_unmap s.pt m), pstruct_addr p))

unfoldable pub get_mapped_addr : ℕ → ℕ → Machine → Outcome (Machine × ℕ)
get_mapped_addr space virt m =
    split_virtual_and_map 0 space virt false true m >>= (λ (m', s). mapped_in s virt m')

-- `current` is the active address space. The new space is written through its physical address,
-- used as a pointer: the store goes where the active space maps that address.
unfoldable pub store_virtual : ℕ → ℕ → ℕ → Machine → Outcome Machine
store_virtual current virt v m = stored (translated (walk m.ram current virt) virt)
  where
    stored : Option ℕ → Outcome Machine
    stored none = fatal
    stored (some p) = ok (record m { ram = write (p / 8) v m.ram })

-- `pdpt_high` is the address of x86_64_pg_pdpt_high.
unfoldable pub new_vspace : ℕ → ℕ → ℕ → Machine → Outcome (Machine × ℕ)
new_vspace fuel current pdpt_high m = do
  (m1, space) ← allocate_pstruct_any fuel m
  m2 ←
      store_virtual current (space + 8 * 511) (bit_or (bit_or pdpt_high page_present) page_writable)
        m1
  ok (m2, space)

-- The three loops of deleteVSpace, each from an index on for a number of entries.
unfoldable pub delete_pd : ℕ → ℕ → ℕ → Machine → Outcome Machine
delete_pd zero i pd m = ok m
delete_pd (suc count) i pd m = do
  e ← load (pd + 8 * i) m
  m' ← if is_present e && not (is_large e) then free_pstruct_any e m else ok m
  delete_pd count (i + 1) pd m'

unfoldable pub delete_pdpt : ℕ → ℕ → ℕ → Machine → Outcome Machine
delete_pdpt zero i pdpt m = ok m
delete_pdpt (suc count) i pdpt m = do
  e ← load (pdpt + 8 * i) m
  m' ← if is_present e then delete_entry e else ok m
  delete_pdpt count (i + 1) pdpt m'
  where
    delete_entry : ℕ → Outcome Machine
    delete_entry e = do
      (m1, pd) ← pstruct_map e m
      m2 ← delete_pd 512 0 pd m1
      e' ← load (pdpt + 8 * i) (pstruct_unmap pd m2)
      free_pstruct_any e' (pstruct_unmap pd m2)

unfoldable pub delete_pml4 : ℕ → ℕ → ℕ → ℕ → Machine → Outcome Machine
delete_pml4 pdpt_high zero i pml4 m = ok m
delete_pml4 pdpt_high (suc count) i pml4 m = do
  e ← load (pml4 + 8 * i) m
  m' ← if is_present e && not (pstruct_addr e == pdpt_high) then delete_entry e else ok m
  delete_pml4 pdpt_high count (i + 1) pml4 m'
  where
    delete_entry : ℕ → Outcome Machine
    delete_entry e = do
      (m1, pdpt) ← pstruct_map e m
      m2 ← delete_pdpt 512 0 pdpt m1
      e' ← load (pml4 + 8 * i) (pstruct_unmap pdpt m2)
      free_pstruct_any e' (pstruct_unmap pdpt m2)

unfoldable pub delete_vspace : ℕ → ℕ → Machine → Outcome Machine
delete_vspace pdpt_high space m = do
  (m1, pml4) ← pstruct_map space m
  m2 ← delete_pml4 pdpt_high 511 0 pml4 m1
  free_pstruct_any space (pstruct_unmap pml4 m2)
