-- ===== src/Boot/MultiBoot.antt =====
-- MultiBootInformation (core/tachyon.boot/MultiBoot.cc, include/tachyon.boot/MultiBoot.h) and the set-up
-- of the physical memory from it (core/tachyon.boot/Entry.cc). Memory is read 32 bits at a time.
pub mod Construct
pub mod Entries
mod Tests
use tachyon.Base.{
  ℕ, zero, suc, ◌+◌, ◌-◌, ◌*◌, ◌/◌, ◌%◌, ◌^◌, ◌≤◌, ◌<◌, min, bit_and, bit_or, ◌≡◌, refl, sym, ap,
  ◌∙◌, ◌≢◌, ◌↔◌, ◌⊎◌, inl, inr, Bool, true, false, not, ◌&&◌, ◌||◌, Option, none, some, List, [],
  ◌∷◌, ◌++◌, map, arith, ltb, leb, ◌==◌, if◌then◌else◌, ltb→lt, lt→ltb, le→ltb, leb→le, le→leb,
  lt→leb, ==_iff, same, same→eq, Bool-cases, Option-cases, passes_below, passes_below_sound, length,
  get_elem?, get_or, set, take, drop, replicate, All, length-append, length-set, length-replicate,
  get_or-set, get_or-replicate, get_or-replicate_lt, get_or_ext, All-set, All-get_or, All-replicate,
  Outcome, ok, fatal, out_of_fuel, ◌>>=◌, ◌>>◌, kassert, >>=-eq-ok,
}
use tachyon.Base.Bits.{word, u32, add64, not64}
use tachyon.Memory.PhysicalMemory.{PhysicalMemory, available, reserve}

abbrev pub mb_info_memory : ℕ
mb_info_memory = 0x001

abbrev pub mb_info_memmap : ℕ
mb_info_memmap = 0x040

-- The fields of mb_info that the kernel reads.
pub record MbInfo : Type 0 where
  pub flags : ℕ
  pub mem_lower : ℕ
  pub mem_upper : ℕ
  pub cmdline : ℕ
  pub mmap_length : ℕ
  pub mmap_addr : ℕ

abbrev pub has_flag : ℕ → MbInfo → Bool
has_flag flag info = not (bit_and info.flags flag == 0)

-- sizeof(pinfo->size) behind the size that the entry states.
abbrev pub next_entry : (ℕ → ℕ) → ℕ → ℕ
next_entry read32 p = add64 p (read32 p + 4)

-- The loop of countEntries.
unfoldable pub count_from : ℕ → (ℕ → ℕ) → ℕ → ℕ → ℕ → Outcome ℕ
count_from zero read32 p end cnt = out_of_fuel
count_from (suc fuel) read32 p end cnt =
    let rest = count_from fuel read32 (next_entry read32 p) end (cnt + 1) in
    if ltb p end then rest else ok cnt

unfoldable pub count_entries : ℕ → (ℕ → ℕ) → ℕ → ℕ → Outcome ℕ
count_entries fuel read32 mmap_base mmap_length =
    count_from fuel read32 mmap_base (u32 (mmap_base + mmap_length)) 0

-- The constructor of MemoryRange: the address of the entry.
unfoldable pub memory_range : (ℕ → ℕ) → ℕ → ℕ → ℕ
memory_range read32 p zero = p
memory_range read32 p (suc mmap_num) = memory_range read32 (next_entry read32 p) mmap_num

abbrev pub read64 : (ℕ → ℕ) → ℕ → ℕ
read64 read32 p = read32 p + 2 ^ 32 * read32 (p + 4)

abbrev pub get_start : (ℕ → ℕ) → ℕ → ℕ
get_start read32 p = read64 read32 (p + 4)

abbrev pub get_length : (ℕ → ℕ) → ℕ → ℕ
get_length read32 p = read64 read32 (p + 12)

abbrev pub get_end : (ℕ → ℕ) → ℕ → ℕ
get_end read32 p = add64 (get_start read32 p) (get_length read32 p)

abbrev pub is_available : (ℕ → ℕ) → ℕ → Bool
is_available read32 p = read32 (p + 20) == 1

unfoldable pub mem_range_count : ℕ → (ℕ → ℕ) → MbInfo → Outcome ℕ
mem_range_count fuel read32 info =
    if has_flag mb_info_memmap info
    then count_entries fuel read32 info.mmap_addr info.mmap_length
    else ok 0

unfoldable pub get_mem_range : (ℕ → ℕ) → MbInfo → ℕ → ℕ
get_mem_range read32 info index = memory_range read32 info.mmap_addr index

abbrev pub get_low_memory_kb : MbInfo → ℕ
get_low_memory_kb info = if not (has_flag mb_info_memory info) then 0 else info.mem_lower

abbrev pub get_high_memory_kb : MbInfo → ℕ
get_high_memory_kb info = if not (has_flag mb_info_memory info) then 0 else info.mem_upper

-- The loop of boot over the memory map, from an index on for a number of ranges.
unfoldable pub free_ranges : ℕ → ℕ → (ℕ → ℕ) → MbInfo → PhysicalMemory → Outcome PhysicalMemory
free_ranges zero i read32 info pm = ok pm
free_ranges (suc count) i read32 info pm = do
  let range = get_mem_range read32 info i
  pm' ←
      if is_available read32 range
      then available (get_start read32 range) (get_end read32 range) pm
      else ok pm
  free_ranges count (i + 1) read32 info pm'

-- What boot makes available and reserves; `lma_start` and `ebss` are the addresses of CORE_LMA_START
-- and _core_lma_ebss.
unfoldable pub set_up_memory :
    ℕ → (ℕ → ℕ) → MbInfo → ℕ → ℕ → PhysicalMemory → Outcome PhysicalMemory
set_up_memory fuel read32 info lma_start ebss pm = do
  count ← mem_range_count fuel read32 info
  pm1 ← free_ranges count 0 read32 info pm
  pm2 ← reserve 0x0 0x100000 pm1
  reserve lma_start (add64 lma_start (bit_and (add64 ebss 0x1000) (not64 0xFFF))) pm2
