-- ===== src/Memory/CoreHeap/Place.antt =====
-- What CoreHeap::allocate does at one block (core/tachyon.memory/CoreHeap.cc): the split of the first
-- block with room, and the step over a block without.
use tachyon.Base.{
  ℕ, ◌+◌, ◌-◌, ◌*◌, ◌%◌, ◌^◌, ◌≤◌, ◌<◌, ◌≡◌, ap, ◌∙◌, inl, inr, Bool, true, false, List, [], ◌∷◌,
  arith, Outcome, ok,
}
use tachyon.Memory.PageSource.{PageSource}
use tachyon.Memory.CoreHeap.{CoreHeap, split}
use tachyon.Memory.CoreHeap.Blocks.{
  Block, block, span, total, IsBlock, Seg, Seg-frame, Shape, Live, Live-le, has_room, place_blocks,
  place_last, place_offset,
}
use tachyon.Memory.CoreHeap.Steps.{split_pointer, split-Halves}

-- The outcome of a search from `p`: the pointer, the blocks from `p` on and how many pages were added.
-- Nothing below `p` and nothing in a block in use has changed.
pub record Placed (src : PageSource) (h : CoreHeap src) (p : ℕ) (bs : List Block) (last n : ℕ)
    (r : Outcome (CoreHeap src × ℕ)) : Type 0 where
  pub heap : CoreHeap src
  pub grown : ℕ
  pub returns : r ≡ ok (heap, p + place_offset n bs + 8)
  pub shape :
      Shape src heap p (place_blocks n bs) (place_last n bs (last + grown * src.page h.alloc))
  pub same_base : src.base heap.alloc ≡ src.base h.alloc
  pub higher : src.top heap.alloc ≡ src.top h.alloc + grown * src.page h.alloc
  pub below : (a : ℕ) → a < p → heap.words a ≡ h.words a
  pub kept : (a : ℕ) → Live p bs a → heap.words a ≡ h.words a

pub eq_pair {ℓ κ} : {A : Type ℓ} {B : Type κ} (x : A × B) {b : B} → x.1 ≡ b → x ≡ (x.0, b)
eq_pair x e = λ i. (x.0, e i)

pub clash : {b : Bool} → b ≡ false → b ≡ true → ⊥
clash p q = cc

module _ {src : PageSource} where
  pub at_end :
      (h : CoreHeap src) (p last : ℕ) → Shape src h p [] last → IsBlock h.words p (block last false)
  at_end h p last shape = (shape.tail.0, ap h.words (omega arith) ∙ shape.tail.1)

  pub tail_split :
      (h : CoreHeap src) (p last n : ℕ)
      → Shape src h p [] last
      → n % 8 ≡ 0
      → n + 16 ≤ last
      → Placed src h p [] last n (ok (split src h p n))
  tail_split h p last n shape whole room =
      let bound : p + last + 16 < 2 ^ 64 = omega (arith, shape.ends, shape.bounded) in
      let at_p = at_end h p last shape in
      let halves = split-Halves src h p n last at_p whole room bound in
      record {
        heap = (split src h p n).0;
        grown = 0;
        returns = ap ok (
            eq_pair (split src h p n)
              (split_pointer h p n last at_p whole room bound ∙ omega arith));
        shape = record {
          seg = (halves.new_block, halves.new_foot, tt);
          tail = (
            omega (arith, halves.rest_block.0),
            ap (split src h p n).0.words (omega arith) ∙ halves.rest_block.1 ∙ omega arith,
          );
          ends = rw halves.same_alloc (omega (arith, shape.ends));
          bounded = rw halves.same_alloc shape.bounded;
          pages = rw halves.same_alloc shape.pages;
        };
        same_base = ap src.base halves.same_alloc;
        higher = rw halves.same_alloc (omega arith);
        below = λ a lt. halves.outside a (inl lt);
        kept = λ a live. absurd live;
      }

  -- The first block has room: it is split, and the blocks behind it stay.
  pub first_split :
      (h : CoreHeap src) (p n last : ℕ) (b : Block) (bs : List Block)
      → Shape src h p (b ∷ bs) last
      → n % 8 ≡ 0
      → has_room n b ≡ true
      → Placed src h p (b ∷ bs) last n (ok (split src h p n))
  first_split h p n last b bs shape whole hit =
      let room : n + 16 ≤ b.size = ground arith in
      let absent : b.present ≡ false = ground arith in
      let bound : p + b.size + 16 < 2 ^ 64 = omega (arith, shape.ends, shape.bounded) in
      let at_p : IsBlock h.words p (block b.size false) =
        (shape.seg.0.0, shape.seg.0.1 ∙ rw absent) in
      let halves = split-Halves src h p n b.size at_p whole room bound in
      let moved : p + (n + 16) + (b.size - n - 16 + 16) ≡ p + span b = omega arith in
      let seg : Seg (split src h p n).0.words (p + span b) bs =
        Seg-frame h.words (split src h p n).0.words (p + span b) bs shape.seg.2
          (λ a lo hi. halves.outside a (inr (omega arith))) in
      record {
        heap = (split src h p n).0;
        grown = 0;
        returns = ap ok (
            eq_pair (split src h p n)
              (split_pointer h p n b.size at_p whole room bound ∙ rw hit (omega arith)));
        shape = record {
          seg = rw hit (
            halves.new_block,
            halves.new_foot,
            (halves.rest_block, halves.rest_foot, rw moved seg),
          );
          tail = rw hit (
            omega (arith, shape.tail.0),
            ap (split src h p n).0.words (omega arith)
                ∙ halves.outside (p + (span b + total bs)) (inr (omega arith))
                ∙ shape.tail.1
                ∙ omega arith,
          );
          ends = rw (hit, halves.same_alloc) (omega (arith, shape.ends));
          bounded = rw halves.same_alloc shape.bounded;
          pages = rw halves.same_alloc shape.pages;
        };
        same_base = ap src.base halves.same_alloc;
        higher = rw halves.same_alloc (omega arith);
        below = λ a lt. halves.outside a (inl lt);
        kept = λ a live. elim live [
          | inl here ↦ absurd (clash absent here.0)
          | inr there ↦ halves.outside a (inr (omega (arith, Live-le (p + span b) bs a there)))
        ];
      }

  -- The first block has none: what the search does behind it is what it does.
  pub skip_block :
      (h : CoreHeap src) (p n last : ℕ) (b : Block) (bs : List Block)
      {r : Outcome (CoreHeap src × ℕ)}
      → Shape src h p (b ∷ bs) last
      → has_room n b ≡ false
      → Placed src h (p + span b) bs last n r
      → Placed src h p (b ∷ bs) last n r
  skip_block h p n last b bs shape miss rest = record {
    heap = rest.heap;
    grown = rest.grown;
    returns = rest.returns ∙ rw miss (ap (λ (x : ℕ). ok (rest.heap, x)) (omega arith));
    shape = rw miss (record {
      seg = (
        (shape.seg.0.0, rest.below p (omega arith) ∙ shape.seg.0.1),
        rest.below (p + 8 + b.size) (omega arith) ∙ shape.seg.1,
        rest.shape.seg,
      );
      tail = (rest.shape.tail.0, ap rest.heap.words (omega arith) ∙ rest.shape.tail.1);
      ends = omega (arith, rest.shape.ends);
      bounded = rest.shape.bounded;
      pages = rest.shape.pages;
    });
    same_base = rest.same_base;
    higher = rest.higher;
    below = λ a lt. rest.below a (omega arith);
    kept = λ a live. elim live [ inl here ↦ rest.below a here.2 | inr there ↦ rest.kept a there ];
  }
