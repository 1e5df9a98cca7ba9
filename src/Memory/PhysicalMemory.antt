-- ===== src/Memory/PhysicalMemory.antt =====
-- PhysicalMemory (core/tachyon.memory/PhysicalMemory.cc): one bit for each 4 KiB page, set when the
-- page is in use. Addresses and lengths are the 64-bit words of the x86-64 build.
pub mod Runs
pub mod Aligned
pub mod Allocate
pub mod Regions
pub mod Tenancy
mod Tests
pub mod TryAllocate
use tachyon.Base.{
  ℕ, zero, suc, ◌+◌, ◌-◌, ◌*◌, ◌%◌, ◌^◌, Bool, true, false, not, bit_and, leb, ltb, ◌==◌, ◌&&◌,
  if◌then◌else◌, Outcome, ok, fatal, out_of_fuel, ◌>>=◌, ◌>>◌, kassert,
}
use tachyon.Base.Bits.{not64, sub64, add64, shl64, shr}
use tachyon.Collections.BitMap.{BitMap, size, get, assign, set_all, get_index_of_from, not_found}

-- PAGE_SIZE_DEFAULT
abbrev pub page_size : ℕ
page_size = 0x1000

abbrev pub scale_to_index : ℕ → ℕ
scale_to_index x = shr x 12

abbrev pub scale_to_phys : ℕ → ℕ
scale_to_phys x = shl64 x 12

unfoldable pub page_count : ℕ → ℕ
page_count x = shr x 12 + (if bit_and x (page_size - 1) == 0 then 0 else 1)

unfoldable pub align_down : ℕ → ℕ → ℕ
align_down x a = bit_and x (not64 (sub64 a 1))

unfoldable pub align_up : ℕ → ℕ → ℕ
align_up x a = align_down (add64 x a) a

-- spBitmap, which holds spStorage.
pub record PhysicalMemory : Type 0 where
  pub sp_bitmap : BitMap

-- The constructor: every page in use.
unfoldable pub init : BitMap → PhysicalMemory
init storage = record { sp_bitmap = set_all storage true }

-- spBitmap.set(first + off, value) for `count` values of off.
unfoldable pub mark : ℕ → ℕ → Bool → PhysicalMemory → Outcome PhysicalMemory
mark zero index value pm = ok pm
mark (suc count) index value pm =
    assign pm.sp_bitmap index value >>= λ m. mark count (index + 1) value (record { sp_bitmap = m })

-- `while(length -= PAGE_SIZE_DEFAULT)`
unfoldable pub region_loop : ℕ → ℕ → ℕ → Bool → PhysicalMemory → Outcome PhysicalMemory
region_loop zero length start value pm = out_of_fuel
region_loop (suc fuel) length start value pm =
    let length' = sub64 length page_size in
    if length' == 0
    then ok pm
    else assign pm.sp_bitmap (scale_to_index start) value >>= λ m.
        region_loop fuel length' (add64 start page_size) value (record { sp_bitmap = m })

-- Each round moves on by a page and stops the kernel past the last one: `size + 1` rounds do.
unfoldable pub set_region : ℕ → ℕ → Bool → PhysicalMemory → Outcome PhysicalMemory
set_region start end value pm =
    if bit_and start (page_size - 1) == 0
    then (let end' = if bit_and end (page_size - 1) == 0 then end else align_down end page_size in
        region_loop (size pm.sp_bitmap + 1) (sub64 end' start) start value pm)
    else fatal

unfoldable pub available : ℕ → ℕ → PhysicalMemory → Outcome PhysicalMemory
available start end pm = set_region start end false pm

unfoldable pub reserve : ℕ → ℕ → PhysicalMemory → Outcome PhysicalMemory
reserve start end pm = set_region start end true pm

-- The first loop of tryAllocate: whether `count` pages from `index` on are all free.
unfoldable pub all_free : ℕ → ℕ → PhysicalMemory → Outcome Bool
all_free zero index pm = ok true
all_free (suc count) index pm =
    let rest = all_free count (index + 1) pm in
    get pm.sp_bitmap index >>= λ used. if used then ok false else rest

unfoldable pub try_allocate : ℕ → ℕ → PhysicalMemory → Outcome (PhysicalMemory × Bool)
try_allocate phys length pm =
    if ltb (size pm.sp_bitmap) (scale_to_index phys + page_count length)
    then ok (pm, false)
    else all_free (page_count length) (scale_to_index phys) pm >>= λ free.
        if free
        then mark (page_count length) (scale_to_index phys) true pm >>= (λ pm'. ok (pm', true))
        else ok (pm, false)

-- `a <= b` on words that stand for signed numbers.
abbrev pub signed_leb : ℕ → ℕ → Bool
signed_leb a b = leb (add64 a (2 ^ 63)) (add64 b (2 ^ 63))

unfoldable pub next_index : ℕ → ℕ → ℕ
next_index found align = scale_to_index (align_up (scale_to_phys found) align)

unfoldable pub search_aligned : ℕ → ℕ → ℕ → ℕ → PhysicalMemory → Outcome (PhysicalMemory × ℕ)
search_aligned zero index length align pm = out_of_fuel
search_aligned (suc fuel) index length align pm =
    if not (index == not_found) && signed_leb index (size pm.sp_bitmap)
    then try_allocate (scale_to_phys index) length pm >>= (λ (pm', done).
      if done
      then ok (pm', scale_to_phys index)
      else get_index_of_from pm.sp_bitmap false (index + 1)
        >>= (λ found. search_aligned fuel (next_index found align) length align pm))
    else ok (pm, 0)

unfoldable pub allocate_aligned : ℕ → ℕ → ℕ → PhysicalMemory → Outcome (PhysicalMemory × ℕ)
allocate_aligned fuel length align pm = do
  kassert (leb page_size align)
  kassert (align % page_size == 0)
  found ← get_index_of_from pm.sp_bitmap false (scale_to_index align)
  search_aligned fuel (next_index found align) length align pm

unfoldable pub allocate_fixed : ℕ → ℕ → PhysicalMemory → Outcome (PhysicalMemory × ℕ)
allocate_fixed phys length pm = do
  kassert (phys % page_size == 0)
  (pm', done) ← try_allocate phys length pm
  ok (if done then (pm', phys) else (pm', 0))

unfoldable pub free : ℕ → ℕ → PhysicalMemory → Outcome PhysicalMemory
free phys length pm = mark (page_count length) (scale_to_index phys) false pm
