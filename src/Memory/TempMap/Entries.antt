-- ===== src/Memory/TempMap/Entries.antt =====
-- Paging entries (core/tachyon.memory/x86_64/VirtualMemory.cc) as arithmetic.
use tachyon.Base.{ℕ, ◌+◌, ◌-◌, ◌*◌, ◌/◌, ◌%◌, ◌^◌, ◌<◌, bit_or, ◌≡◌, refl, arith, ◌==◌}
use tachyon.Base.Bits.{
  bit_and_mask, bit_and_shifted, bit_and_high, bit_and_page, bit_or_fields, or_lowest, zero-bit_or,
}
use tachyon.Memory.TempMap.{
  is_present, is_large, phys_page, phys_off, pstruct_addr, tempmap_addr, temp_entry,
}

pub is_present_lem : (e : ℕ) → is_present e ≡ (e % 2 == 1)
unfolding is_present
is_present_lem e = ground (arith, bit_and_mask 1 e)

pub is_large_lem : (e : ℕ) → is_large e ≡ (e / 128 % 2 == 1)
unfolding is_large
is_large_lem e = ground (arith, bit_and_shifted 7 e 1, bit_and_mask 1 (e / 128))

pub phys_page_lem : (e : ℕ) → e < 2 ^ 64 → phys_page e ≡ e / 0x200000 * 0x200000
unfolding phys_page
phys_page_lem = bit_and_high 43 21 refl

pub phys_off_lem : (e : ℕ) → phys_off e ≡ e % 0x200000
unfolding phys_off
phys_off_lem = bit_and_mask 21

pub pstruct_addr_lem : (e : ℕ) → e < 2 ^ 64 → pstruct_addr e ≡ e / 4096 * 4096
unfolding pstruct_addr
pstruct_addr_lem = bit_and_page

pub tempmap_addr_lem : (i : ℕ) → i < 10 → tempmap_addr i ≡ (2 ^ 43 - 10 + i) * 2 ^ 21
unfolding tempmap_addr
tempmap_addr_lem i h = omega arith

pub bit_or-tempmap_addr :
    (i phys : ℕ)
    → i < 10
    → bit_or (tempmap_addr i) (phys_off phys) ≡ tempmap_addr i + phys % 0x200000
bit_or-tempmap_addr i phys h =
    rw (tempmap_addr_lem i h, phys_off_lem phys)
      (bit_or_fields 21 (2 ^ 43 - 10 + i) (phys % 0x200000) (omega arith))

pub temp_entry_lem : (page : ℕ) → temp_entry (page * 2 ^ 21) ≡ page * 2 ^ 21 + 0x183
unfolding temp_entry
temp_entry_lem page = bit_or_fields 21 page 0x183 (omega arith)

-- `| PAGE_PRESENT | flags` on the address of a page.
pub bit_or-flags : (flags : ℕ) → bit_or 1 flags ≡ flags / 2 * 2 + 1
bit_or-flags flags = omega (arith, or_lowest 1 flags, zero-bit_or (flags / 2))
