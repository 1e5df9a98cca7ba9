-- ===== src/Memory/BreakPageAllocator.antt =====
-- BreakPageAllocator (core/tachyon.memory/BreakPageAllocator.cc, include/tachyon.memory/
-- BreakPageAllocator.h): a zone of virtual memory, mapped page by page up to a break. `fuel` is that
-- of the search for a free page, `space` the active address space.
pub mod Source
pub mod Break
mod Tests
use tachyon.Base.{
  ℕ, zero, suc, ◌+◌, ◌-◌, ◌*◌, ◌/◌, ◌%◌, ◌^◌, ◌≤◌, ◌<◌, min, bit_and, bit_or, ◌≡◌, refl, sym, ap,
  ◌∙◌, ◌≢◌, ◌↔◌, ◌⊎◌, inl, inr, Bool, true, false, not, ◌&&◌, ◌||◌, Option, none, some, List, [],
  ◌∷◌, ◌++◌, map, arith, ltb, leb, ◌==◌, if◌then◌else◌, ltb→lt, lt→ltb, le→ltb, leb→le, le→leb,
  lt→leb, ==_iff, same, same→eq, Bool-cases, Option-cases, passes_below, passes_below_sound, length,
  get_elem?, get_or, set, take, drop, replicate, All, length-append, length-set, length-replicate,
  get_or-set, get_or-replicate, get_or-replicate_lt, get_or_ext, All-set, All-get_or, All-replicate,
  Outcome, ok, fatal, out_of_fuel, ◌>>=◌, ◌>>◌, kassert, >>=-eq-ok,
}
use tachyon.Base.Bits.{word, add64, sub64}
use tachyon.Memory.PhysicalMemory.{PhysicalMemory, page_size, allocate_aligned, free}
use tachyon.Memory.TempMap.{Machine, page_size_2m, page_large, is_large}
use tachyon.Memory.VirtualMemory.{map_page, unmap, get_mapped_addr}
use tachyon.Memory.VirtualZoneManager.{VirtualZone}

pub record BreakPageAllocator : Type 0 where
  pub zone : VirtualZone
  pub brk : ℕ
  pub large : Bool
  pub flags : ℕ
  pub ps : ℕ

-- The constructor, which marks the zone as used.
unfoldable pub create : VirtualZone → Bool → ℕ → Outcome BreakPageAllocator
create z large_pages flags =
    if z.in_use
    then fatal
    else if is_large flags && not large_pages
    then fatal
    else ok (record {
      zone = record z { in_use = true };
      brk = z.start;
      large = large_pages;
      flags = flags;
      ps = if large_pages then page_size_2m else page_size;
    })

abbrev pub get_base : BreakPageAllocator → ℕ
get_base a = a.zone.start

abbrev pub get_top : BreakPageAllocator → ℕ
get_top a = a.brk

abbrev pub get_page_size : BreakPageAllocator → ℕ
get_page_size a = a.ps

abbrev pub map_flags : BreakPageAllocator → ℕ
map_flags a = bit_or (if a.large then page_large else 0) a.flags

-- The loop of increase. map stops the kernel or returns true, so that the branch for the result
-- false is never taken.
unfoldable pub add_pages :
    ℕ → ℕ → ℕ → BreakPageAllocator → Machine → Outcome (BreakPageAllocator × Machine)
add_pages fuel space zero a m = ok (a, m)
add_pages fuel space (suc i) a m = do
  (pm, phys) ← allocate_aligned fuel a.ps a.ps m.physical
  m' ← map_page fuel space a.brk phys (map_flags a) (record m { physical = pm })
  add_pages fuel space i (record a { brk = add64 a.brk a.ps }) m'

-- The allocator, the machine and the result.
unfoldable pub increase :
    ℕ → ℕ → ℕ → BreakPageAllocator → Machine → Outcome (BreakPageAllocator × Machine × ℕ)
increase fuel space pages a m =
    let grown = add_pages fuel space pages a m in
    if ltb a.zone.end (add64 a.brk (pages * a.ps % 2 ^ 64))
    then ok (a, m, 0)
    else grown >>= (λ (a', m'). ok (a', m', a'.brk))

-- The loop of decrease.
unfoldable pub drop_pages :
    ℕ → ℕ → BreakPageAllocator → Machine → Outcome (BreakPageAllocator × Machine)
drop_pages space zero a m = ok (a, m)
drop_pages space (suc pages) a m = do
  (m1, phys) ← get_mapped_addr space (sub64 a.brk a.ps) m
  m2 ← unmap space (sub64 a.brk a.ps) m1
  pm ← free phys a.ps m2.physical
  drop_pages space pages (record a { brk = sub64 a.brk a.ps }) (record m2 { physical = pm })

-- A request for more than the zone holds is cut down to what is there.
unfoldable pub pages_to_drop : ℕ → BreakPageAllocator → ℕ
pages_to_drop pages a =
    if ltb (sub64 a.brk (pages * a.ps % 2 ^ 64)) a.zone.start
    then sub64 a.brk a.zone.start / a.ps
    else pages

unfoldable pub decrease :
    ℕ → ℕ → BreakPageAllocator → Machine → Outcome (BreakPageAllocator × Machine × ℕ)
decrease space pages a m =
    drop_pages space (pages_to_drop pages a) a m >>= (λ (a', m'). ok (a', m', a'.brk))
