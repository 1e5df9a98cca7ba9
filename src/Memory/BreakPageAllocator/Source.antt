-- ===== src/Memory/BreakPageAllocator/Source.antt =====
-- The BreakPageAllocator as the page allocator of the heap
-- (include/tachyon.memory/BreakPageAllocator.h, core/tachyon.memory/BreakPageAllocator.cc).
use tachyon.Base.{ℕ, ◌+◌, ◌*◌, ◌%◌, ◌^◌, ◌≤◌, ◌<◌, ◌≡◌, refl, arith, lt→ltb, le→ltb, ok, ◌>>=◌}
use tachyon.Base.Bits.{add64}
use tachyon.Memory.PageSource.{PageSource, Grows}
use tachyon.Memory.PhysicalMemory.{PhysicalMemory, allocate_aligned}
use tachyon.Memory.TempMap.{Machine}
use tachyon.Memory.VirtualMemory.{map_page}
use tachyon.Memory.BreakPageAllocator.{
  BreakPageAllocator, get_base, get_top, get_page_size, map_flags, add_pages, increase,
}

-- The heap ignores the result of increase(1).
abbrev pub break_pages : ℕ → ℕ → PageSource
break_pages fuel space = record {
  State = BreakPageAllocator × Machine;
  base = λ s. get_base s.0;
  top = λ s. get_top s.0;
  page = λ s. get_page_size s.0;
  increase = λ s. increase fuel space 1 s.0 s.1 >>= (λ (a, m, top). ok (a, m));
}

-- One page is allocated and mapped at the break.
pub record PageAdded (fuel space : ℕ) (a : BreakPageAllocator) (m m' : Machine) : Type 0 where
  pub pm : PhysicalMemory
  pub phys : ℕ
  pub allocated : allocate_aligned fuel a.ps a.ps m.physical ≡ ok (pm, phys)
  pub mapped : map_page fuel space a.brk phys (map_flags a) (record m { physical = pm }) ≡ ok m'

-- The break lies in the zone, which lies in the address space.
pub record IsValid (a : BreakPageAllocator) : Type 0 where
  pub above : a.zone.start ≤ a.brk
  pub below : a.brk ≤ a.zone.end
  pub in_space : a.zone.end < 2 ^ 64
  pub page : 0 < a.ps

-- While the zone has room for a page, and the page is allocated and mapped, increase(1) does what
-- the heap relies on: the base and the page size stay, and the top is a page higher.
pub break_pages-Grows :
    (fuel space : ℕ) (a : BreakPageAllocator) (m m' : Machine)
    → IsValid a
    → a.brk + a.ps ≤ a.zone.end
    → PageAdded fuel space a m m'
    → Grows (break_pages fuel space) (a, m) (record a { brk = a.brk + a.ps }, m')
break_pages-Grows fuel space a m m' valid room added =
    let one : add64 a.brk (1 * a.ps % 2 ^ 64) ≡ a.brk + a.ps =
      omega (arith, valid.in_space, room) in
    let next : add64 a.brk a.ps ≡ a.brk + a.ps = omega (arith, valid.in_space, room) in
    record {
      returns =
          unfold increase add_pages in
          rw (one, le→ltb a.zone.end (a.brk + a.ps) room, added.allocated, added.mapped, next);
      same_base = refl;
      same_page = refl;
      higher = refl;
    }

-- increase without room in the zone returns 0 and changes nothing.
pub increase_full :
    (fuel space pages : ℕ) (a : BreakPageAllocator) (m : Machine)
    → a.brk + pages * a.ps < 2 ^ 64
    → a.zone.end < a.brk + pages * a.ps
    → increase fuel space pages a m ≡ ok (a, m, 0)
unfolding increase
increase_full fuel space pages a m fits full =
    let sum : add64 a.brk (pages * a.ps % 2 ^ 64) ≡ a.brk + pages * a.ps = omega (arith, fits) in
    rw (sum, lt→ltb a.zone.end (a.brk + pages * a.ps) full)
