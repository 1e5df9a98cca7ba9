-- ===== src/Memory/PhysicalMemory/Aligned.antt =====
-- PhysicalMemory::allocateAligned, at the two alignments that the kernel asks for: 4 KiB and 2 MiB.
use tachyon.Base.{
  ℕ, zero, suc, ◌+◌, ◌-◌, ◌*◌, ◌/◌, ◌%◌, ◌^◌, ◌≤◌, ◌<◌, ◌≡◌, refl, inl, inr, Bool, true, false, not,
  ltb, leb, ◌==◌, ◌&&◌, Outcome, ok, arith, Bool-cases,
}
use tachyon.Base.Bits.{bit_and_page, bit_and_high, shl64}
use tachyon.Collections.BitMap.{size, get_index_of_from, not_found}
use tachyon.Collections.BitMap.Search.{get_index_of_from-Finds}
use tachyon.Memory.PhysicalMemory.{
  PhysicalMemory, page_count, page_size, align_up, align_down, next_index, signed_leb,
  search_aligned, allocate_aligned, try_allocate,
}
use tachyon.Memory.PhysicalMemory.Runs.{pages, used}
use tachyon.Memory.PhysicalMemory.TryAllocate.{
  IsValid, Taken, Refused, Tried, taken, refused, try_allocate-Tried,
}

-- The next multiple of `a` above `f`: a multiple itself moves on to the next one.
abbrev pub up : ℕ → ℕ → ℕ
up a f = (f / a + 1) * a

-- An alignment of `a` pages, and what rounding up to it does.
pub record Grid (align a : ℕ) : Type 0 where
  pub coarse : leb page_size align ≡ true
  pub whole : align % page_size ≡ 0
  pub in_pages : align / 2 ^ 12 ≡ a
  pub pos : 0 < a
  pub next : (f : ℕ) → f < 2 ^ 50 → next_index f align ≡ up a f
  pub mono : (r f : ℕ) → r ≤ f → up a r ≤ up a f
  pub above : (r : ℕ) → r < up a r
  pub below : (c f : ℕ) → c % a ≡ 0 → c < up a f → c ≤ f
  pub lands : (r : ℕ) → up a r % a ≡ 0

next_index_small : (f : ℕ) → f < 2 ^ 50 → next_index f 0x1000 ≡ up 1 f
unfolding next_index align_up align_down
next_index_small f h = ground (arith, bit_and_page (f * 4096 + 4096) (omega arith))

next_index_large : (f : ℕ) → f < 2 ^ 50 → next_index f 0x200000 ≡ up 512 f
unfolding next_index align_up align_down
next_index_large f h = ground (arith, bit_and_high 43 21 refl (f * 4096 + 0x200000) (omega arith))

pub small-Grid : Grid 0x1000 1
small-Grid = record {
  coarse = refl;
  whole = refl;
  in_pages = refl;
  pos = omega arith;
  next = next_index_small;
  mono = λ r f h. omega arith;
  above = λ r. omega arith;
  below = λ c f e h. omega arith;
  lands = λ r. omega arith;
}

pub large-Grid : Grid 0x200000 512
large-Grid = record {
  coarse = refl;
  whole = refl;
  in_pages = refl;
  pos = omega arith;
  next = next_index_large;
  mono = λ r f h. omega arith;
  above = λ r. omega arith;
  below = λ c f e h. omega arith;
  lands = λ r. omega arith;
}

-- An aligned run of free pages was taken, and its address is the result.
pub record Allocated (pm : PhysicalMemory) (a count limit : ℕ) (r : Outcome (PhysicalMemory × ℕ))
    : Type 0 where
  pub memory : PhysicalMemory
  pub index : ℕ
  pub returns : r ≡ ok (memory, index * 4096)
  pub nonzero : 0 < index
  pub aligned : index % a ≡ 0
  pub at_most : index ≤ limit
  pub took : Taken pm index count memory

module _ {align a : ℕ} (grid : Grid align a) {pm : PhysicalMemory} (valid : IsValid pm)
    (small : pages pm < 2 ^ 50) (length f : ℕ) (listed : f ≤ pm.sp_bitmap.byte_count)
    (room : up a f + page_count length ≤ pages pm)
    (run : (i : ℕ) → f ≤ i → i < up a f + page_count length → used pm i ≡ false) where
  -- The next free page from `c` on stands at `f` or below it.
  found_free :
      (c : ℕ)
      → c ≤ f
      → (r : ℕ) × (get_index_of_from pm.sp_bitmap false c ≡ ok r) × (c ≤ r) × (r ≤ f)
  unfolding used
  found_free c h =
      let (r, returns, finds) =
        get_index_of_from-Finds valid false c (omega (arith, grid.above f)) (omega arith)
          (omega arith) in
      elim finds [
        | inl first ↦ (
          r,
          returns,
          first.above,
          elim (Bool-cases (leb r f)) [
            | inl e ↦ ground arith
            | inr e ↦
                absurd (
                  first.least f h (ground arith)
                    (run f (omega arith) (omega (arith, grid.above f))))
          ],
        )
        | inr missing ↦
            absurd
              (missing.absent f h (omega arith) (run f (omega arith) (omega (arith, grid.above f))))
      ]

  -- A candidate that is refused lies below `f`.
  Refused-lt : (c : ℕ) → c % a ≡ 0 → c ≤ up a f → Refused pm c (page_count length) → c < f
  Refused-lt c aligned h (inl outside) = absurd (omega arith)
  Refused-lt c aligned h (inr (i, lo, hi, busy)) = elim (Bool-cases (ltb c f)) [
    | inl e ↦ ground arith
    | inr e ↦ absurd (free_contra (run i (ground arith) (ground arith)) busy)
  ]
    where
      free_contra : {b : Bool} → b ≡ false → b ≡ true → ⊥
      free_contra p q = cc

  enters : (c : ℕ) → c ≤ up a f → (not (c == not_found) && signed_leb c (size pm.sp_bitmap)) ≡ true
  unfolding size
  enters c h = ground arith

  search_aligned-Allocated :
      (fuel c : ℕ)
      → 0 < c
      → c % a ≡ 0
      → c ≤ up a f
      → up a f - c < fuel
      → Allocated pm a (page_count length) (up a f) (search_aligned fuel c length align pm)
  unfolding search_aligned
  search_aligned-Allocated zero c pos aligned h enough = absurd (omega arith)
  search_aligned-Allocated (suc fuel) c pos aligned h enough =
      let phys : shl64 c 12 ≡ c * 4096 = omega arith in
      let page : c * 4096 / 4096 ≡ c = omega arith in
      let tried : Tried pm c (page_count length) (try_allocate (c * 4096) length pm) =
        rw page at (try_allocate-Tried valid (c * 4096) length) in
      rw (enters c h, phys)
        (elim tried [
          | taken pm' e t ↦ rw e (record {
            memory = pm';
            index = c;
            returns = refl;
            nonzero = pos;
            aligned = aligned;
            at_most = h;
            took = t;
          })
          | refused e why ↦
              let lt : c < f = Refused-lt c aligned h why in
              let (r, returns, lo, hi) = found_free (c + 1) (omega arith) in
              rw (e, returns, grid.next r (omega arith))
                (search_aligned-Allocated fuel (up a r) (omega (arith, grid.above r)) (grid.lands r)
                  (grid.mono r f hi) (omega (arith, grid.above r)))
        ])

  pub allocate_aligned-Allocated :
      (fuel : ℕ)
      → a ≤ f
      → up a f < fuel
      → Allocated pm a (page_count length) (up a f) (allocate_aligned fuel length align pm)
  unfolding allocate_aligned
  allocate_aligned-Allocated fuel above enough =
      let (r, returns, lo, hi) = found_free a above in
      rw (grid.coarse, grid.whole, grid.in_pages, returns, grid.next r (omega arith))
        (search_aligned-Allocated fuel (up a r) (omega (arith, grid.above r)) (grid.lands r)
          (grid.mono r f hi) (omega arith))
