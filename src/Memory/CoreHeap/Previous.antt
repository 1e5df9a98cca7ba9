-- ===== src/Memory/CoreHeap/Previous.antt =====
-- Blocks before the one that CoreHeap::free (core/tachyon.memory/CoreHeap.cc) is given, and the merge
-- with the one before it.
use tachyon.Base.{
  ℕ, ◌+◌, ◌-◌, ◌%◌, ◌^◌, ◌≤◌, ◌<◌, ◌≡◌, refl, ap, ◌∙◌, ◌↔◌, ◌⊎◌, inl, inr, true, false, some, List,
  [], ◌∷◌, ◌++◌, arith, ltb, ◌==◌,
}
use tachyon.Base.Bits.{add64, sub64, bit_and_mask}
use tachyon.Memory.PageSource.{PageSource}
use tachyon.Memory.CoreHeap.{
  CoreHeap, Words, clear_flags, update, block_size, is_present, merge_previous, merge_both, free,
}
use tachyon.Memory.CoreHeap.Words.{is_present-flag, is_present-footer, clear_flags_lem}
use tachyon.Memory.CoreHeap.Blocks.{Block, block, span, total, IsBlock, IsFooted, Seg, Shape, Live}
use tachyon.Memory.CoreHeap.Steps.{clear_flags-flag}

pub total-append : (xs ys : List Block) → total (xs ++ ys) ≡ total xs + total ys
total-append [] ys = omega arith
total-append (x ∷ xs) ys = omega (arith, total-append xs ys)

-- The block that the list ends with, if any, is in use.
abbrev pub LastPresent : List Block → Type 0
LastPresent [] = Unit
LastPresent (b ∷ []) = b.present ≡ true
LastPresent (b ∷ c ∷ cs) = LastPresent (c ∷ cs)

pub Seg-append :
    (m : Words) (p : ℕ) (xs ys : List Block)
    → Seg m p (xs ++ ys) ↔ (Seg m p xs × Seg m (p + total xs) ys)
Seg-append m p [] ys = let e : p + 0 ≡ p = omega arith in rw e (λ s. (tt, s), λ s. s.1)
Seg-append m p (x ∷ xs) ys =
    let e : p + (span x + total xs) ≡ p + span x + total xs = omega arith in
    let ih = Seg-append m (p + span x) xs ys in
    rw e (λ s. ((s.0, s.1, (ih.0 s.2).0), (ih.0 s.2).1), λ s. (s.0.0, s.0.1, ih.1 (s.0.2, s.1)))

pub total_whole : (m : Words) (p : ℕ) (bs : List Block) → Seg m p bs → total bs % 8 ≡ 0
total_whole m p [] s = refl
total_whole m p (b ∷ bs) s = omega (arith, s.0.0, total_whole m (p + span b) bs s.2)

pub last_footer :
    (m : Words) (p : ℕ) (b : Block) (bs : List Block)
    → Seg m p (b ∷ bs)
    → LastPresent (b ∷ bs)
    → is_present (m (p + total (b ∷ bs) - 8)) ≡ true
last_footer m p b [] s used =
    let e : p + (span b + 0) - 8 ≡ p + 8 + b.size = omega arith in
    rw (e, s.1, is_present-footer b.size b.present s.0.0) used
last_footer m p b (c ∷ cs) s used =
    let e : p + (span b + total (c ∷ cs)) - 8 ≡ p + span b + total (c ∷ cs) - 8 = omega arith in
    rw e (last_footer m (p + span b) c cs s.2 used)

pub Live-lt : (p : ℕ) (bs : List Block) (a : ℕ) → Live p bs a → a < p + total bs
Live-lt p [] a live = absurd live
Live-lt p (b ∷ bs) a (inl here) = omega (arith, here.2)
Live-lt p (b ∷ bs) a (inr there) = omega (arith, Live-lt (p + span b) bs a there)

module _ {src : PageSource} where
  pub Shape-append :
      (h : CoreHeap src) (p : ℕ) (xs ys : List Block) (last : ℕ)
      → Shape src h p (xs ++ ys) last
      → Seg h.words p xs × Shape src h (p + total xs) ys last
  Shape-append h p xs ys last shape =
      let parts = (Seg-append h.words p xs ys).0 shape.seg in
      (
        parts.0,
        record {
          seg = parts.1;
          tail = (shape.tail.0, ap h.words (omega (arith, total-append xs ys)) ∙ shape.tail.1);
          ends = omega (arith, shape.ends, total-append xs ys);
          bounded = shape.bounded;
          pages = shape.pages;
        },
      )

  pub append-Shape :
      (h : CoreHeap src) (p : ℕ) (xs ys : List Block) (last : ℕ)
      → Seg h.words p xs
      → Shape src h (p + total xs) ys last
      → Shape src h p (xs ++ ys) last
  append-Shape h p xs ys last front shape = record {
    seg = (Seg-append h.words p xs ys).1 (front, shape.seg);
    tail = (shape.tail.0, ap h.words (omega (arith, total-append xs ys)) ∙ shape.tail.1);
    ends = omega (arith, shape.ends, total-append xs ys);
    bounded = shape.bounded;
    pages = shape.pages;
  }

  -- The checks that free makes all pass on a block in use.
  pub free_enters :
      (h : CoreHeap src) (ptr n : ℕ)
      → ptr % 8 ≡ 0
      → IsBlock h.words ptr (block n true)
      → ptr + 8 < 2 ^ 64
      → n + 1 < 2 ^ 64
      → free src h (ptr + 8) ≡ merge_both src h (merge_previous src h ptr n)
  unfolding free
  free_enters h ptr n aligned (whole, head) bounded small =
      let back : sub64 (ptr + 8) 8 ≡ ptr = omega arith in
      let some_ptr : (ptr + 8 == 0) ≡ false = ground arith in
      rw (
        some_ptr,
        back,
        bit_and_mask 3 ptr,
        aligned,
        head,
        is_present-flag n true whole,
        clear_flags-flag n true whole small,
      )

  pub alone :
      (h : CoreHeap src) (ptr n : ℕ)
      → 8 ≤ ptr
      → ptr < 2 ^ 64
      → (ptr ≤ src.base h.alloc) ⊎ (is_present (h.words (ptr - 8)) ≡ true)
      → merge_previous src h ptr n ≡ some (update h.words ptr n 0, ptr)
  unfolding merge_previous
  alone h ptr n above bounded (inl first) =
      let before : sub64 ptr 8 ≡ ptr - 8 = omega arith in
      let out : ltb (src.base h.alloc) (ptr - 8) ≡ false = ground arith in rw (before, out)
  alone h ptr n above bounded (inr busy) =
      let before : sub64 ptr 8 ≡ ptr - 8 = omega arith in rw (before, busy) (ground arith)

  pub with_previous :
      (h : CoreHeap src) (q s n : ℕ)
      → src.base h.alloc ≤ q
      → q + s + n + 32 < 2 ^ 64
      → IsBlock h.words q (block s false)
      → IsFooted h.words q (block s false)
      → merge_previous src h (q + (s + 16)) n ≡ some (update h.words q (s + 16 + n) 0, q)
  unfolding merge_previous
  with_previous h q s n inside bounded (whole, head) foot =
      let before : sub64 (q + (s + 16)) 8 ≡ q + 8 + s = omega arith in
      let above : ltb (src.base h.alloc) (q + 8 + s) ≡ true = ground arith in
      let foot_size : clear_flags (s + 0 + 2) ≡ s =
        clear_flags_lem (s + 0 + 2) (omega arith) ∙ omega arith in
      let back : sub64 (sub64 (q + 8 + s) 8) s ≡ q = omega arith in
      let low : ltb q (src.base h.alloc) ≡ false = ground arith in
      let sum : add64 (block_size s) n ≡ s + 16 + n = omega arith in
      rw (
        before,
        above,
        foot,
        is_present-footer s false whole,
        foot_size,
        back,
        low,
        head,
        clear_flags-flag s false whole (omega arith),
        sum,
      )
