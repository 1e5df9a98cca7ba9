-- ===== src/Memory/CoreHeap/Allocate.antt =====
-- CoreHeap::allocate as a whole, on a heap in use and on a fresh one, and what free makes of its result.
use tachyon.Base.{
  ℕ, inr, suc, ◌+◌, ◌-◌, ◌*◌, ◌/◌, ◌%◌, ◌^◌, ◌≤◌, ◌<◌, ◌≡◌, refl, ap, ◌∙◌, true, false, List, [],
  ◌∷◌, ◌++◌, arith, ◌==◌, ==_iff, length, ok,
}
use mathlib.Core.List.{append-nil}
use native.Mathlib.Nat.{suc-mul}
use tachyon.Memory.PageSource.{PageSource, Grows, Supplies}
use tachyon.Memory.CoreHeap.{CoreHeap, store, data_size, init, allocate, free}
use tachyon.Memory.CoreHeap.Words.{align_up_lem}
use tachyon.Memory.CoreHeap.Blocks.{
  Block, block, span, total, Shape, has_room, place_blocks, place_last, place_offset,
}
use tachyon.Memory.CoreHeap.Place.{Placed}
use tachyon.Memory.CoreHeap.Find.{Served, find_block-Placed}
use tachyon.Memory.CoreHeap.Previous.{LastPresent, total-append}
use tachyon.Memory.CoreHeap.Free.{free-keep}

-- A request in whole words.
abbrev pub rounded : ℕ → ℕ
rounded bytes = (bytes + 7) / 8 * 8

module _ {src : PageSource} where
  -- allocate on a heap in use, where a free block of the list has room for the request, or the page
  -- allocator can grow by k pages one after the other, below 2^64, which give the free block at the
  -- top room for it, implements first fit on the list of blocks: the first free block with room is
  -- split, or the free block at the top grows page by page and is split; the pointer is the data of
  -- the new block, no block in use changes, and the search ends within one round for each block and
  -- one for each of the k pages. The request is below 2^64 - 24 bytes.
  pub allocate-Placed :
      (fuel k : ℕ) (h : CoreHeap src) (bytes : ℕ) (bs : List Block) (last : ℕ)
      → Shape src h (src.base h.alloc) bs last
      → 0 < src.base h.alloc
      → bytes + 24 < 2 ^ 64
      → Served src h.alloc k bs last (rounded bytes)
      → length bs + k < fuel
      → Placed src h (src.base h.alloc) bs last (rounded bytes) (allocate src fuel h bytes)
  unfolding allocate
  allocate-Placed fuel k h bytes bs last shape pos small served enough =
      let used : (src.base h.alloc == src.top h.alloc) ≡ false =
        lt→ne (src.base h.alloc) (src.top h.alloc) (omega (arith, shape.ends)) in
      rw (used, align_up_lem bytes (omega arith))
        (find_block-Placed bs fuel k h (src.base h.alloc) last (rounded bytes) shape (omega arith)
          pos (omega arith) served enough)
    where
      lt→ne : (a b : ℕ) → a < b → (a == b) ≡ false
      lt→ne a b lt = ground arith

  -- The heap after init: one free block that fills the first page.
  abbrev pub first_page : CoreHeap src → src.State → CoreHeap src
  first_page h t = record { words = store h.words (src.base t) (src.page t - 16); alloc = t }

  -- allocate on a heap that has no page yet sets the first page up as one free block, and goes on as on a heap in
  -- use.
  pub allocate_first :
      (fuel k : ℕ) (h : CoreHeap src) (bytes : ℕ) (t : src.State)
      → src.base h.alloc ≡ src.top h.alloc
      → 0 < src.base h.alloc
      → Grows src h.alloc t
      → 16 ≤ src.page h.alloc
      → src.page h.alloc % 8 ≡ 0
      → bytes + 24 < 2 ^ 64
      → Supplies src k t
      → rounded bytes + 16 ≤ src.page h.alloc - 16 + k * src.page h.alloc
      → src.top h.alloc + suc k * src.page h.alloc < 2 ^ 64
      → k < fuel
      → Placed src
          (first_page h t)
          (src.base t)
          []
          (src.page t - 16)
          (rounded bytes)
          (allocate src fuel h bytes)
  unfolding allocate init
  allocate_first fuel k h bytes t fresh pos grows big pages small supplies room bounded enough =
      let unused : (src.base h.alloc == src.top h.alloc) ≡ true =
        (==_iff (src.base h.alloc) (src.top h.alloc)).1 fresh in
      let one : src.top h.alloc + src.page h.alloc + k * src.page h.alloc < 2 ^ 64 =
        omega (arith, suc-mul k (src.page h.alloc)) in
      let size : data_size (src.page t) ≡ src.page t - 16 = rw grows.same_page (omega arith) in
      rw (unused, grows.returns, size, align_up_lem bytes (omega arith))
        (find_block-Placed [] fuel k (first_page h t) (src.base t) (src.page t - 16) (rounded bytes)
          (record {
            seg = tt;
            tail = (rw grows.same_page (omega arith), ground arith);
            ends = omega (arith, grows.higher, grows.same_base, grows.same_page);
            bounded = omega (arith, grows.higher);
            pages = rw grows.same_page pages;
          })
          (omega arith) (omega (arith, grows.same_base)) (omega arith)
          (inr (supplies, rw grows.same_page room, rw (grows.higher, grows.same_page) one))
          (omega arith))

-- No block of the list has room for `n` bytes.
abbrev pub NoRoom : ℕ → List Block → Type 0
NoRoom n [] = Unit
NoRoom n (b ∷ bs) = (has_room n b ≡ false) × NoRoom n bs

place_end :
    (n : ℕ) (bs : List Block) (last : ℕ)
    → NoRoom n bs
    → (place_blocks n bs ≡ bs ++ block n true ∷ [])
      × (place_last n bs last ≡ last - n - 16)
      × (place_offset n bs ≡ total bs)
place_end n [] last none_fits = (refl, refl, refl)
place_end n (b ∷ bs) last none_fits =
    let (blocks, rest, offset) = place_end n bs last none_fits.1 in
    (
      rw none_fits.0 (ap (λ l. b ∷ l) blocks),
      rw none_fits.0 rest,
      rw none_fits.0 (ap (λ (x : ℕ). span b + x) offset),
    )

module _ {src : PageSource} where
  -- A request that is served from the top of the heap and given back: the blocks are as before, and the free block
  -- at the top is as large as the pages added make it.
  pub free-allocate :
      (fuel k : ℕ) (h : CoreHeap src) (bytes : ℕ) (bs : List Block) (last : ℕ)
      → Shape src h (src.base h.alloc) bs last
      → NoRoom (rounded bytes) bs
      → LastPresent bs
      → src.base h.alloc % 8 ≡ 0
      → 8 ≤ src.base h.alloc
      → bytes + 24 < 2 ^ 64
      → Supplies src k h.alloc
      → rounded bytes + 16 ≤ last + k * src.page h.alloc
      → src.top h.alloc + k * src.page h.alloc < 2 ^ 64
      → length bs + k < fuel
      → (h' : CoreHeap src) × (ptr : ℕ) × (grown : ℕ) × (allocate src fuel h bytes ≡ ok (h', ptr))
        × Shape src (free src h' ptr) (src.base h.alloc) bs (last + grown * src.page h.alloc)
  free-allocate fuel k h bytes bs last shape none_fits used aligned above small supplies room
        bounded enough =
      let n = rounded bytes in
      let p =
        allocate-Placed fuel k h bytes bs last shape (omega arith) small
          (inr (supplies, room, bounded)) enough in
      let l = last + p.grown * src.page h.alloc in
      let (blocks, rest, offset) = place_end n bs l none_fits in
      let placed : Shape src p.heap (src.base h.alloc) (bs ++ block n true ∷ []) (l - n - 16) =
        rw (← blocks, ← rest) p.shape in
      let freed =
        free-keep p.heap bs n [] (l - n - 16) (rw p.same_base placed) used (rw p.same_base aligned)
          (rw p.same_base above) in
      let size : n + (l - n - 16 + 16) ≡ l =
        omega (arith, placed.ends, p.higher, shape.ends, total-append bs (block n true ∷ [])) in
      (
        p.heap,
        src.base h.alloc + total bs + 8,
        p.grown,
        p.returns ∙ rw offset,
        rw (p.same_base, append-nil, size) at freed.shape,
      )
