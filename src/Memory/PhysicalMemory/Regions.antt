-- ===== src/Memory/PhysicalMemory/Regions.antt =====
-- PhysicalMemory::setRegion, on which available and reserve stand.
use tachyon.Base.{
  ℕ, zero, suc, ◌+◌, ◌-◌, ◌*◌, ◌/◌, ◌%◌, ◌^◌, ◌≤◌, ◌<◌, ◌≡◌, refl, ◌∙◌, inl, inr, Bool, false, ltb,
  le→leb, bit_and, ◌==◌, if◌then◌else◌, ok, fatal, arith, Bool-cases,
}
use native.Mathlib.Numerals.{add-one}
use tachyon.Base.Bits.{bit_and_page_offset, bit_and_page, sub64, add64}
use tachyon.Collections.BitMap.{size, with_bit, assign}
use tachyon.Collections.BitMap.Laws.{assign-with_bit, with_bit-IsBitMap, byte_count-with_bit}
use tachyon.Memory.PhysicalMemory.{PhysicalMemory, page_size, align_down, region_loop, set_region}
use tachyon.Memory.PhysicalMemory.Runs.{pages, Marked, Marked-step}
use tachyon.Memory.PhysicalMemory.TryAllocate.{IsValid}

-- The loop with `left + 1` pages of length: it sets `left` of them.
region_loop-Marked :
    (left fuel index : ℕ) (value : Bool) (pm : PhysicalMemory)
    → IsValid pm
    → left < fuel
    → index + left ≤ pages pm
    → pages pm < 2 ^ 51
    → (pm' : PhysicalMemory) × (region_loop fuel ((left + 1) * 4096) (index * 4096) value pm
        ≡ ok pm')
      × Marked pm index left value pm'
unfolding region_loop
region_loop-Marked left zero index value pm valid enough inside small = absurd (omega arith)
region_loop-Marked zero (suc fuel) index value pm valid enough inside small =
    (pm, refl, record { valid = valid; same_size = refl; bits = λ i. ground arith })
region_loop-Marked (suc left) (suc fuel) index value pm valid enough inside small =
    let (pm', returns, marked) =
      region_loop-Marked left fuel (index + 1) value
        (record { sp_bitmap = with_bit pm.sp_bitmap index value })
        (with_bit-IsBitMap valid index value) (omega arith)
        (omega (arith, byte_count-with_bit valid index value))
        (omega (arith, byte_count-with_bit valid index value)) in
    let shorter : sub64 ((suc left + 1) * 4096) page_size ≡ (left + 1) * 4096 = omega arith in
    let further : add64 (index * 4096) page_size ≡ (index + 1) * 4096 = omega arith in
    let page : index * 4096 / 2 ^ 12 ≡ index = omega arith in
    let more : ((left + 1) * 4096 == 0) ≡ false = ground arith in
    (
      pm',
      rw (shorter, further, page, more, assign-with_bit valid index value (omega arith)) returns,
      Marked-step pm pm' index left value valid (omega arith) marked,
    )

assign-fatal :
    (pm : PhysicalMemory) (i : ℕ) (v : Bool) → pages pm ≤ i → assign pm.sp_bitmap i v ≡ fatal
unfolding assign
assign-fatal pm i v h = rw (le→leb pm.sp_bitmap.byte_count (i / 8) (omega arith))

-- A region that leaves the managed memory stops the kernel at the first page outside.
region_loop-fatal :
    (fuel left index : ℕ) (value : Bool) (pm : PhysicalMemory)
    → IsValid pm
    → index ≤ pages pm
    → pages pm < index + left
    → pages pm - index < fuel
    → left < 2 ^ 52
    → pages pm < 2 ^ 51
    → region_loop fuel ((left + 1) * 4096) (index * 4096) value pm ≡ fatal
unfolding region_loop
region_loop-fatal zero left index value pm valid inside outside enough short small =
    absurd (omega arith)
region_loop-fatal (suc fuel) zero index value pm valid inside outside enough short small =
    absurd (omega arith)
region_loop-fatal (suc fuel) (suc left) index value pm valid inside outside enough short small =
    let shorter : sub64 ((suc left + 1) * 4096) page_size ≡ (left + 1) * 4096 = omega arith in
    let further : add64 (index * 4096) page_size ≡ (index + 1) * 4096 = omega arith in
    let page : index * 4096 / 2 ^ 12 ≡ index = omega arith in
    let more : ((left + 1) * 4096 == 0) ≡ false = ground arith in
    let same_size = byte_count-with_bit valid index value in
    rw (shorter, further, page, more)
      (elim (Bool-cases (ltb index (pages pm))) [
        | inl e ↦ rw (assign-with_bit valid index value (ground arith)) (
            region_loop-fatal fuel left (index + 1) value
              (record { sp_bitmap = with_bit pm.sp_bitmap index value })
              (with_bit-IsBitMap valid index value) (ground (arith, same_size))
              (ground (arith, same_size)) (ground (arith, same_size)) (omega arith)
              (ground (arith, same_size)))
        | inr e ↦ rw (assign-fatal pm index value (ground arith))
      ])

-- The first `length -= 4096` of an empty region gives 2 ^ 64 - 4096.
region_loop-wraps :
    (n start : ℕ) (value : Bool) (pm : PhysicalMemory)
    → region_loop (n + 1) 0 start value pm
      ≡ region_loop (n + 1) ((2 ^ 52 - 1 + 1) * 4096) start value pm
unfolding region_loop
region_loop-wraps n start value pm = rw add-one refl

module _ {pm : PhysicalMemory} (valid : IsValid pm) (small : pages pm < 2 ^ 51) (s end : ℕ)
    (word_end : end < 2 ^ 64) where
  rounded :
      (if bit_and end (page_size - 1) == 0 then end else align_down end page_size)
      ≡ end / 4096 * 4096
  unfolding align_down
  rounded = ground (arith, bit_and_page_offset end, bit_and_page end word_end)

  -- setRegion at a page address sets every page of the region but the last one, and no other page. An end
  -- inside a page counts from the start of that page.
  pub set_region-Marked :
      (value : Bool)
      → s < end / 4096
      → end / 4096 ≤ pages pm + 1
      → (pm' : PhysicalMemory) × (set_region (s * 4096) end value pm ≡ ok pm')
        × Marked pm s (end / 4096 - s - 1) value pm'
  unfolding set_region size
  set_region-Marked value some_pages inside =
      let (pm', returns, marked) =
        region_loop-Marked (end / 4096 - s - 1) (pages pm + 1) s value pm valid (omega arith)
          (omega arith) small in
      let aligned : s * 4096 % 2 ^ 12 ≡ 0 = omega arith in
      let long : sub64 (end / 4096 * 4096) (s * 4096) ≡ (end / 4096 - s - 1 + 1) * 4096 =
        omega arith in
      (pm', rw (bit_and_page_offset (s * 4096), aligned, rounded, long) returns, marked)

  -- An empty region does not end the loop at once: the length wraps round, and the kernel stops
  -- when the loop has passed the end of the managed memory.
  pub set_region_empty :
      (value : Bool) → s ≤ pages pm → end / 4096 ≡ s → set_region (s * 4096) end value pm ≡ fatal
  unfolding set_region size
  set_region_empty value inside empty =
      let aligned : s * 4096 % 2 ^ 12 ≡ 0 = omega arith in
      let long : sub64 (end / 4096 * 4096) (s * 4096) ≡ 0 = omega arith in
      rw (bit_and_page_offset (s * 4096), aligned, rounded, long)
        (region_loop-wraps (pages pm) (s * 4096) value pm
          ∙ region_loop-fatal (pages pm + 1) (2 ^ 52 - 1) s value pm valid inside (omega arith)
              (omega arith) (omega arith) small)
