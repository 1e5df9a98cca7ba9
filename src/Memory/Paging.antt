-- ===== src/Memory/Paging.antt =====
-- Address translation of the x86-64 processor over four levels of paging structures, with pages of
-- 4 KiB and of 2 MiB, and the fields of an address that VirtualMemory.cc
-- (core/tachyon.memory/x86_64) computes for it.
use tachyon.Base.{ℕ, ◌+◌, ◌/◌, ◌%◌, bit_and, Option, none, some, if◌then◌else◌}
use tachyon.Base.Bits.{shr}
use tachyon.Memory.TempMap.{is_present, is_large, pstruct_addr, phys_page}

abbrev pub pml4_index : ℕ → ℕ
pml4_index virt = bit_and (shr virt 39) 0x1FF

abbrev pub pdpt_index : ℕ → ℕ
pdpt_index virt = bit_and (shr virt 30) 0x1FF

abbrev pub pd_index : ℕ → ℕ
pd_index virt = bit_and (shr virt 21) 0x1FF

abbrev pub pt_index : ℕ → ℕ
pt_index virt = bit_and (shr virt 12) 0x1FF

-- Where the translation of an address ends.
pub data Walk : Type 0 where
  absent : Walk
  large_page small_page : ℕ → Walk

-- The entry at an index of the structure at a physical address.
abbrev pub entry : (ℕ → ℕ) → ℕ → ℕ → ℕ
entry ram table i = ram (table / 8 + i)

unfoldable pub walk_pd : (ℕ → ℕ) → ℕ → ℕ → Walk
walk_pd ram pd virt =
    let e = entry ram pd (pd_index virt) in
    if is_present e
    then if is_large e
      then large_page e
      else small_page (entry ram (pstruct_addr e) (pt_index virt))
    else absent

unfoldable pub walk_pdpt : (ℕ → ℕ) → ℕ → ℕ → Walk
walk_pdpt ram pdpt virt =
    let e = entry ram pdpt (pdpt_index virt) in
    if is_present e then walk_pd ram (pstruct_addr e) virt else absent

unfoldable pub walk : (ℕ → ℕ) → ℕ → ℕ → Walk
walk ram pml4 virt =
    let e = entry ram pml4 (pml4_index virt) in
    if is_present e then walk_pdpt ram (pstruct_addr e) virt else absent

-- The physical address of an access.
abbrev pub translated : Walk → ℕ → Option ℕ
translated absent virt = none
translated (large_page e) virt = some (phys_page e + virt % 0x200000)
translated (small_page e) virt = if is_present e then some (pstruct_addr e + virt % 4096) else none
