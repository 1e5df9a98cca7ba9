-- ===== src/Memory/CoreHeap/Tests.antt =====
-- The heap over a page allocator that adds 256 bytes at a time, and the theorems at it.
use tachyon.Base.{
  ℕ, ◌+◌, ◌*◌, ◌≡◌, refl, inr, true, false, Option, none, some, [], ◌∷◌, arith, Outcome, ok, fatal,
  overrun, out_of_fuel,
}
use tachyon.Memory.PageSource.{PageSource, Grows}
use tachyon.Memory.CoreHeap.{
  CoreHeap, Words, store, clear_flags, align_up, is_present, is_footer, update, init, split, fits,
  grow, find_block, allocate, free,
}
use tachyon.Memory.CoreHeap.Blocks.{block, Shape, Live}
use tachyon.Memory.CoreHeap.Place.{Placed}
use tachyon.Memory.CoreHeap.Merge.{joined_blocks, joined_last}
use tachyon.Memory.CoreHeap.Free.{Freed, free-keep, free-join}
use tachyon.Memory.CoreHeap.Allocate.{rounded, allocate-Placed, free-allocate}

abbrev source : PageSource
source = record {
  State = ℕ;
  base = λ s. 0x1000;
  top = λ s. s;
  page = λ s. 0x100;
  increase = λ s. ok (s + 0x100);
}

source-Grows : (s : ℕ) → Grows source s (s + 0x100)
source-Grows s = record { returns = refl; same_base = refl; same_page = refl; higher = refl }

abbrev empty_words : Words
empty_words a = 0

abbrev fresh : CoreHeap source
fresh = record { words = empty_words; alloc = 0x1000 }

-- A block of 24 bytes in use, and 200 free bytes behind it.
abbrev one_block : CoreHeap source
one_block = record {
  words = store (store (store empty_words 4096 25) 4128 27) 4136 200;
  alloc = 0x1100;
}

one_block-Shape : Shape source one_block 0x1000 (block 24 true ∷ []) 200
one_block-Shape = record {
  seg = ((refl, refl), refl, tt);
  tail = (refl, refl);
  ends = refl;
  bounded = omega arith;
  pages = refl;
}

-- A free block of 8 bytes, one of 16 bytes in use, and 184 free bytes.
abbrev two_blocks : CoreHeap source
two_blocks = record {
  words = store (store (store (store (store empty_words 4096 8) 4112 10) 4120 17) 4144 19) 4152 184;
  alloc = 0x1100;
}

two_blocks-Shape : Shape source two_blocks 0x1000 (block 8 false ∷ block 16 true ∷ []) 184
two_blocks-Shape = record {
  seg = ((refl, refl), refl, ((refl, refl), refl, tt));
  tail = (refl, refl);
  ends = refl;
  bounded = omega arith;
  pages = refl;
}

pointer_of : {src : PageSource} → Outcome (CoreHeap src × ℕ) → Option ℕ
pointer_of (ok (h, ptr)) = some ptr
pointer_of fatal = none
pointer_of overrun = none
pointer_of out_of_fuel = none

first_pointer : pointer_of (allocate source 3 fresh 20) ≡ some 0x1008
unfolding allocate init find_block fits split grow update is_present is_footer clear_flags align_up
    pointer_of
first_pointer = refl

after_growth : pointer_of (allocate source 9 one_block 0x300) ≡ some 4144
unfolding allocate init find_block fits split grow update is_present is_footer clear_flags align_up
    pointer_of
after_growth = refl

allocate-Placed_example :
    Placed source one_block 0x1000
      (block 24 true ∷ [])
      200
      (rounded 0x150)
      (allocate source 9 one_block 0x150)
allocate-Placed_example =
    allocate-Placed 9 1 one_block 0x150 (block 24 true ∷ []) 200 one_block-Shape (omega arith)
      (omega arith) (inr ((0x1200, source-Grows 0x1100, tt), omega arith, omega arith))
      (omega arith)

free-keep_example :
    Freed one_block []
      (joined_blocks 24 [])
      (joined_last 24 [] 200)
      (Live 0x1000 [])
      (Live (0x1000 + 0 + (24 + 16)) [])
      (free source one_block (0x1000 + 0 + 8))
free-keep_example = free-keep one_block [] 24 [] 200 one_block-Shape tt refl (omega arith)

free-join_example :
    Freed two_blocks []
      (joined_blocks (8 + 16 + 16) [])
      (joined_last (8 + 16 + 16) [] 184)
      (Live 0x1000 [])
      (Live (0x1000 + 0 + (8 + 16) + (16 + 16)) [])
      (free source two_blocks (0x1000 + 0 + (8 + 16) + 8))
free-join_example = free-join two_blocks [] 8 16 [] 184 two_blocks-Shape refl (omega arith)

free-allocate_example :
    (h' : CoreHeap source) × (ptr : ℕ) × (grown : ℕ) × (allocate source 9 one_block 20
      ≡ ok (h', ptr))
    × Shape source (free source h' ptr) 0x1000 (block 24 true ∷ []) (200 + grown * 0x100)
free-allocate_example =
    free-allocate 9 0 one_block 20 (block 24 true ∷ []) 200 one_block-Shape (refl, tt) refl refl
      (omega arith) (omega arith) tt (omega arith) (omega arith) (omega arith)
