-- ===== src/Memory/PhysicalMemory/Tests.antt =====
-- The physical memory on small storage, and the theorems at it.
use tachyon.Base.{
  ℕ, ◌+◌, ◌*◌, ◌/◌, ◌-◌, ◌<◌, ◌≡◌, refl, Bool, true, false, [], ◌∷◌, ok, out_of_fuel, arith,
}
use tachyon.Collections.BitMap.{
  set_all, bit_at, with_bit, test_bit, put_bit, get, assign, size, get_index_of_from, scan,
}
use tachyon.Collections.BitMap.Laws.{bit_at-set_all, set_all-IsBitMap}
use tachyon.Memory.PhysicalMemory.{
  PhysicalMemory, page_count, try_allocate, allocate_aligned, search_aligned, next_index, align_up,
  align_down, free, set_region, region_loop, mark, all_free,
}
use tachyon.Memory.PhysicalMemory.Runs.{pages, used, Marked}
use tachyon.Memory.PhysicalMemory.Regions.{set_region-Marked}
use tachyon.Memory.PhysicalMemory.TryAllocate.{IsValid, Tried, try_allocate-Tried}
use tachyon.Memory.PhysicalMemory.Tenancy.{free-try_allocate, try_allocate_exclusive}
use tachyon.Memory.PhysicalMemory.Aligned.{Allocated}
use tachyon.Memory.PhysicalMemory.Allocate.{allocate_pages, allocate_aligned_exhausted}

abbrev memory : ℕ → Bool → PhysicalMemory
memory bytes v = record { sp_bitmap = set_all (record { byte_count = bytes; memory = [] }) v }

memory-IsValid : (bytes : ℕ) (v : Bool) → IsValid (memory bytes v)
memory-IsValid bytes v = set_all-IsBitMap (record { byte_count = bytes; memory = [] }) v

pages-memory : (bytes : ℕ) (v : Bool) → pages (memory bytes v) ≡ bytes * 8
unfolding set_all
pages-memory bytes v = refl

used-memory : (bytes : ℕ) (v : Bool) (i : ℕ) → i < bytes * 8 → used (memory bytes v) i ≡ v
unfolding used
used-memory bytes v i h = bit_at-set_all (record { byte_count = bytes; memory = [] }) v i h

-- Page 0 in use, the other fifteen free.
abbrev sixteen : PhysicalMemory
sixteen = record { sp_bitmap = record { byte_count = 2; memory = 1 ∷ 0 ∷ [] } }

sixteen-IsValid : IsValid sixteen
sixteen-IsValid = omega arith

-- The first free page is page 1; the address is that of page 2.
skips_a_page :
    allocate_aligned 5 0x1000 0x1000 sixteen
    ≡ ok (record { sp_bitmap = record { byte_count = 2; memory = 5 ∷ 0 ∷ [] } }, 0x2000)
unfolding allocate_aligned search_aligned next_index align_up align_down try_allocate page_count
    all_free mark assign get size with_bit bit_at put_bit test_bit get_index_of_from scan
skips_a_page = refl

-- The region of two pages: only the first is set.
half_region :
    set_region 0x3000 0x5000 true sixteen
    ≡ ok (record { sp_bitmap = record { byte_count = 2; memory = 9 ∷ 0 ∷ [] } })
unfolding set_region region_loop assign size with_bit put_bit
half_region = refl

allocate_pages_example :
    Allocated
      (memory 2 false)
      1
      (page_count 0x1800)
      (1 + 1)
      (allocate_aligned 9 0x1800 0x1000 (memory 2 false))
unfolding set_all page_count
allocate_pages_example =
    allocate_pages (memory-IsValid 2 false) (omega arith) 0x1800 1 9 (omega arith) (omega arith)
      (omega arith) (λ i lo hi. used-memory 2 false i (omega arith)) (omega arith)

allocate_aligned_exhausted_example :
    allocate_aligned 1000 0x1000 0x1000 (memory 2 true) ≡ out_of_fuel
unfolding set_all page_count
allocate_aligned_exhausted_example =
    allocate_aligned_exhausted (memory-IsValid 2 true) (omega arith) (omega arith) 0x1000
      (omega arith) (λ i h. used-memory 2 true i (omega arith)) 1000

try_allocate-Tried_example :
    Tried sixteen (0x2000 / 4096) (page_count 0x2001) (try_allocate 0x2000 0x2001 sixteen)
try_allocate-Tried_example = try_allocate-Tried sixteen-IsValid 0x2000 0x2001

abbrev after : PhysicalMemory
after = record { sp_bitmap = record { byte_count = 2; memory = 0x0D ∷ 0 ∷ [] } }

two_taken : try_allocate 0x2000 0x2000 sixteen ≡ ok (after, true)
unfolding try_allocate page_count all_free mark assign get size with_bit bit_at put_bit test_bit
two_taken = refl

free-try_allocate_example :
    (pm'' : PhysicalMemory) × (free 0x2000 0x2000 after ≡ ok pm'')
    × ((i : ℕ) → used pm'' i ≡ used sixteen i)
free-try_allocate_example = free-try_allocate sixteen-IsValid 0x2000 0x2000 two_taken

try_allocate_exclusive_example : try_allocate 0x1000 0x3000 after ≡ ok (after, false)
unfolding page_count
try_allocate_exclusive_example =
    try_allocate_exclusive sixteen-IsValid 0x2000 0x2000 two_taken 0x1000 0x3000 2 (omega arith)
      (omega arith) (omega arith) (omega arith)

set_region-Marked_example :
    (pm' : PhysicalMemory) × (set_region (3 * 4096) 0x5123 true sixteen ≡ ok pm')
    × Marked sixteen 3 (0x5123 / 4096 - 3 - 1) true pm'
set_region-Marked_example =
    set_region-Marked sixteen-IsValid (omega arith) 3 0x5123 (omega arith) true (omega arith)
      (omega arith)
