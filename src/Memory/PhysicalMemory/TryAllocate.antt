-- ===== src/Memory/PhysicalMemory/TryAllocate.antt =====
-- PhysicalMemory::tryAllocate, allocateFixed and free.
use tachyon.Base.{
  ℕ, ◌+◌, ◌/◌, ◌≤◌, ◌<◌, ◌≡◌, ◌⊎◌, inl, inr, Bool, true, false, ltb, le→ltb, Outcome, ok, arith,
  Bool-cases,
}
use tachyon.Base.Bits.{bit_and_page_offset}
use tachyon.Collections.BitMap.{size}
use tachyon.Collections.BitMap.Laws.{IsBitMap}
use tachyon.Memory.PhysicalMemory.{PhysicalMemory, page_count, try_allocate, free}
use tachyon.Memory.PhysicalMemory.Runs.{pages, used, Marked, mark-Marked, Free, all_free-FreeTest}

abbrev pub IsValid : PhysicalMemory → Type 0
IsValid pm = IsBitMap pm.sp_bitmap

-- PAGE_COUNT rounds up to whole pages.
pub page_count_lem : (x : ℕ) → page_count x ≡ (x + 4095) / 4096
unfolding page_count
page_count_lem x = ground (arith, bit_and_page_offset x)

-- The run was free and is now in use, and no other page changed.
pub record Taken (pm : PhysicalMemory) (index count : ℕ) (pm' : PhysicalMemory) : Type 0 where
  pub inside : index + count ≤ pages pm
  pub was_free : Free pm index count
  pub marked : Marked pm index count true pm'

-- Why an attempt fails: the run leaves the managed memory, or one of its pages is in use.
abbrev pub Refused : PhysicalMemory → ℕ → ℕ → Type 0
Refused pm index count =
    (pages pm < index + count) ⊎ ((i : ℕ) × (index ≤ i) × (i < index + count) × (used pm i ≡ true))

pub data Tried (pm : PhysicalMemory) (index count : ℕ) (r : Outcome (PhysicalMemory × Bool))
    : Type 0 where
  taken :
      (pm' : PhysicalMemory)
      → r ≡ ok (pm', true)
      → Taken pm index count pm'
      → Tried pm index count r
  refused : r ≡ ok (pm, false) → Refused pm index count → Tried pm index count r

module _ {pm : PhysicalMemory} (valid : IsValid pm) where
  try_inside :
      (phys length : ℕ)
      → phys / 4096 + page_count length ≤ pages pm
      → Tried pm (phys / 4096) (page_count length) (try_allocate phys length pm)
  unfolding try_allocate size
  try_inside phys length inside =
      let (b, tested, free) = all_free-FreeTest (page_count length) (phys / 4096) pm valid inside in
      let (pm', returns, marked) =
        mark-Marked (page_count length) (phys / 4096) true pm valid inside in
      rw (le→ltb (pages pm) (phys / 4096 + page_count length) inside, tested)
        (elim free [
          | inl (e, run) ↦
              taken pm' (rw (e, returns))
                (record { inside = inside; was_free = run; marked = marked })
          | inr (e, page) ↦ refused (rw e) (inr page)
        ])

  -- tryAllocate always returns: it takes the whole run if every page of it lies in the managed memory and is
  -- free, and otherwise changes nothing.
  pub try_allocate-Tried :
      (phys length : ℕ) → Tried pm (phys / 4096) (page_count length) (try_allocate phys length pm)
  try_allocate-Tried phys length =
      elim (Bool-cases (ltb (pages pm) (phys / 4096 + page_count length))) [
        | inl e ↦ refused (unfold try_allocate size in rw e) (inl (ground arith))
        | inr e ↦ try_inside phys length (ground arith)
      ]
