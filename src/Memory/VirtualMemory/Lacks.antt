-- ===== src/Memory/VirtualMemory/Lacks.antt =====
-- Structures without a page table (core/tachyon.memory/x86_64/VirtualMemory.cc), and the memory with a new
-- one.
use tachyon.Base.{
  ℕ, ◌+◌, ◌*◌, ◌/◌, ◌%◌, ◌≤◌, ◌<◌, bit_or, ◌≡◌, ap, ◌∙◌, ◌≢◌, ◌⊎◌, true, false, arith,
}
use tachyon.Base.Bits.{bit_or_fields, or_lowest}
use tachyon.Memory.TempMap.{is_present, pstruct_addr, page_present, page_writable, write}
use tachyon.Memory.Paging.{entry, pml4_index, pdpt_index, pd_index}
use tachyon.Memory.VirtualMemory.Supply.{zeroed}

-- The structures down to the page directory are present, the page table is not.
pub record Lacks (ram : ℕ → ℕ) (space virt : ℕ) : Type 0 where
  pub e4 : ℕ
  pub e3 : ℕ
  pub at4 : entry ram space (pml4_index virt) ≡ e4
  pub at3 : entry ram (pstruct_addr e4) (pdpt_index virt) ≡ e3
  pub present4 : is_present e4 ≡ true
  pub present3 : is_present e3 ≡ true
  pub missing : is_present (entry ram (pstruct_addr e3) (pd_index virt)) ≡ false

-- The page for the page table is none of the structures, and they are three different pages.
pub record Apart (space addr : ℕ) {ram : ℕ → ℕ} {virt : ℕ} (r : Lacks ram space virt) : Type 0 where
  pub not_pml4 : addr ≢ space
  pub not_pdpt : addr ≢ pstruct_addr r.e4
  pub not_pd : addr ≢ pstruct_addr r.e3
  pub pd_pml4 : pstruct_addr r.e3 ≢ space
  pub pd_pdpt : pstruct_addr r.e3 ≢ pstruct_addr r.e4

-- The entry for the page table.
abbrev pub table_entry : ℕ → ℕ
table_entry addr = bit_or (bit_or addr page_present) page_writable

pub table_entry_lem : (addr : ℕ) → addr % 4096 ≡ 0 → table_entry addr ≡ addr + 3
table_entry_lem addr whole =
    let pages : addr ≡ addr / 4096 * 4096 = omega arith in
    let halved : (addr / 4096 * 4096 + 1) / 2 ≡ addr / 4096 * 2048 = omega arith in
    ap table_entry pages
    ∙ rw (bit_or_fields 12 (addr / 4096) 1 (omega arith)) (
        omega (
          arith,
          whole,
          or_lowest (addr / 4096 * 4096 + 1) 2,
          ap (λ (t : ℕ). bit_or t 1) halved,
          bit_or_fields 11 (addr / 4096) 1 (omega arith),
        ))

-- A word outside of the new page and other than the new entry.
pub grown_other :
    (place v addr : ℕ) (ram : ℕ → ℕ) (x : ℕ)
    → x ≢ place
    → (x < addr / 8) ⊎ (addr / 8 + 512 ≤ x)
    → write place v (zeroed (addr / 8) ram) x ≡ ram x
grown_other place v addr ram x differ outside = ground arith

-- Entries of different pages.
pub entry_apart :
    (table page i : ℕ)
    → table % 4096 ≡ 0
    → page % 4096 ≡ 0
    → page ≢ table
    → i < 512
    → (table / 8 + i < page / 8) ⊎ (page / 8 + 512 ≤ table / 8 + i)
entry_apart table page i whole whole' differ inside = ground arith
