-- ===== src/Memory/PhysicalPages.antt =====
-- What the virtual memory of the x86 build asks of PhysicalMemory
-- (include/tachyon.memory/PhysicalMemory.h): one page at a page address, and its release. The state
-- is the allocator's.
use tachyon.Base.{ℕ, Outcome}
use tachyon.Memory.PhysicalMemory.{PhysicalMemory, page_size, allocate_aligned, free}

pub record PhysicalPages : Type 1 where
  pub State : Type 0
  pub allocate_page : State → Outcome (State × ℕ)
  pub free_page : ℕ → State → Outcome State

-- The page bitmap as that allocator; `fuel` is that of its search.
abbrev pub bitmap_pages : ℕ → PhysicalPages
bitmap_pages fuel = record {
  State = PhysicalMemory;
  allocate_page = allocate_aligned fuel page_size page_size;
  free_page = λ addr. free addr page_size;
}
