-- ===== src/Memory/PhysicalMemory/Allocate.antt =====
-- allocateAligned: when it succeeds, and what it does when the memory is exhausted.
use tachyon.Base.{
  ℕ, zero, suc, ◌+◌, ◌*◌, ◌/◌, ◌%◌, ◌^◌, ◌≤◌, ◌<◌, ◌≡◌, refl, ap, ◌∙◌, inl, inr, true, false, leb,
  ok, out_of_fuel, arith,
}
use tachyon.Collections.BitMap.{size, get_index_of_from, not_found}
use tachyon.Collections.BitMap.Search.{get_index_of_from-Finds}
use tachyon.Memory.PhysicalMemory.{
  PhysicalMemory, page_count, align_up, align_down, next_index, search_aligned, allocate_aligned,
  try_allocate,
}
use tachyon.Memory.PhysicalMemory.Runs.{pages, used}
use tachyon.Memory.PhysicalMemory.TryAllocate.{IsValid, taken, refused, try_allocate-Tried}
use tachyon.Memory.PhysicalMemory.Aligned.{
  Allocated, allocate_aligned-Allocated, small-Grid, large-Grid,
}

module _ {pm : PhysicalMemory} (valid : IsValid pm) (small : pages pm < 2 ^ 50) (length f fuel : ℕ)
    (listed : f ≤ pm.sp_bitmap.byte_count) where
  -- allocateAligned at 4 KiB succeeds if a free run starts at page `f`, which the search reaches, and goes on for
  -- the pages of the request behind it.
  pub allocate_pages :
      1 ≤ f
      → f + 1 + page_count length ≤ pages pm
      → ((i : ℕ) → f ≤ i → i < f + 1 + page_count length → used pm i ≡ false)
      → f + 1 < fuel
      → Allocated pm 1 (page_count length) (f + 1) (allocate_aligned fuel length 0x1000 pm)
  allocate_pages above room run enough = rw (← up_one) (
      allocate_aligned-Allocated small-Grid valid small length f listed (rw up_one room)
        (λ i lo hi. run i lo (omega (arith, up_one))) fuel above (omega (arith, up_one)))
    where
      up_one : (f / 1 + 1) * 1 ≡ f + 1
      up_one = omega arith

  -- The same for large pages: the run reaches past the next multiple of 512 pages above `f`.
  pub allocate_large_pages :
      512 ≤ f
      → (f / 512 + 1) * 512 + page_count length ≤ pages pm
      → ((i : ℕ) → f ≤ i → i < (f / 512 + 1) * 512 + page_count length → used pm i ≡ false)
      → (f / 512 + 1) * 512 < fuel
      → Allocated pm 512
          (page_count length)
          ((f / 512 + 1) * 512)
          (allocate_aligned fuel length 0x200000 pm)
  allocate_large_pages above room run enough =
      allocate_aligned-Allocated large-Grid valid small length f listed room run fuel above enough

next_index_none : next_index not_found 0x1000 ≡ 0
unfolding next_index align_up align_down
next_index_none = refl

module _ {pm : PhysicalMemory} (valid : IsValid pm) (some_bytes : 0 < pm.sp_bitmap.byte_count)
    (small : pages pm < 2 ^ 50) (length : ℕ) (asks : 0 < page_count length)
    (busy : (i : ℕ) → i ≤ pm.sp_bitmap.byte_count → used pm i ≡ true) where
  none_free :
      (c : ℕ) → c ≤ pm.sp_bitmap.byte_count → get_index_of_from pm.sp_bitmap false c ≡ ok not_found
  unfolding used
  none_free c h =
      let (r, returns, finds) = get_index_of_from-Finds valid false c some_bytes h (omega arith) in
      elim finds [
        | inl first ↦ let at_r = busy r (omega (arith, first.below)) in let free = first.holds in cc
        | inr missing ↦ returns ∙ ap ok missing.is_not_found
      ]

  try_zero : try_allocate 0 length pm ≡ ok (pm, false)
  try_zero = elim (try_allocate-Tried valid 0 length) [
    | taken pm' e t ↦
        let at_zero = busy 0 (omega arith) in
        let free = t.was_free 0 (omega arith) (omega (arith, asks)) in cc
    | refused e why ↦ e
  ]

  search_exhausted : (fuel : ℕ) → search_aligned fuel 0 length 0x1000 pm ≡ out_of_fuel
  unfolding search_aligned size
  search_exhausted zero = refl
  search_exhausted (suc fuel) =
      let enters : leb (2 ^ 63) ((pages pm + 2 ^ 63) % 2 ^ 64) ≡ true = ground arith in
      rw (enters, try_zero, none_free 1 (omega arith), next_index_none) (search_exhausted fuel)

  -- A request for at least one page at an alignment of 4 KiB, on a bitmap that is not empty, has
  -- below 2^50 pages and has no free page among those that the search looks at, of index 0 to
  -- byteCount: allocateAligned does not return 0; whatever number of rounds is granted, it goes on.
  pub allocate_aligned_exhausted : (fuel : ℕ) → allocate_aligned fuel length 0x1000 pm ≡ out_of_fuel
  unfolding allocate_aligned
  allocate_aligned_exhausted fuel =
      rw (none_free 1 (omega arith), next_index_none) (search_exhausted fuel)
