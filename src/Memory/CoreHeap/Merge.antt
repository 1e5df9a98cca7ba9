-- ===== src/Memory/CoreHeap/Merge.antt =====
-- The writes of CoreHeap::free: a run of the heap becomes one free block, and takes in a free block
-- behind it.
use tachyon.Base.{
  ℕ, ◌+◌, ◌%◌, ◌^◌, ◌≤◌, ◌<◌, ◌≡◌, refl, ap, ◌∙◌, ◌⊎◌, inl, inr, Bool, true, false, List, [], ◌∷◌,
  arith, leb, if◌then◌else◌, le→leb, Bool-cases,
}
use tachyon.Base.Bits.{add64}
use tachyon.Memory.PageSource.{PageSource}
use tachyon.Memory.CoreHeap.{
  CoreHeap, Words, update, next_block, block_size, is_present, merge_next,
}
use tachyon.Memory.CoreHeap.Words.{is_present-flag}
use tachyon.Memory.CoreHeap.Blocks.{
  Block, block, span, total, IsBlock, Seg, Seg-frame, Shape, Live, Live-le,
}
use tachyon.Memory.CoreHeap.Steps.{update_lem, clear_flags-flag, next_block_lem}

-- The list after a free block of `z` bytes has taken in a free block behind it.
abbrev pub joined_blocks : ℕ → List Block → List Block
joined_blocks z [] = []
joined_blocks z (c ∷ cs) =
    if c.present then block z false ∷ c ∷ cs else block (z + (c.size + 16)) false ∷ cs

abbrev pub joined_last : ℕ → List Block → ℕ → ℕ
joined_last z [] last = z + (last + 16)
joined_last z (c ∷ cs) last = last

-- What is known of the heap behind the run from `q` that becomes a block of `z` bytes.
pub record Behind (src : PageSource) (h : CoreHeap src) (q z : ℕ) (bs : List Block) (last : ℕ)
    : Type 0 where
  pub whole : z % 8 ≡ 0
  pub seg : Seg h.words (q + (z + 16)) bs
  pub tail : IsBlock h.words (q + (z + 16) + total bs) (block last false)
  pub ends : q + (z + 16) + total bs + last + 16 ≡ src.top h.alloc
  pub bounded : src.top h.alloc < 2 ^ 64
  pub pages : src.page h.alloc % 8 ≡ 0

pub update-outside :
    (m : Words) (q z a : ℕ)
    → z % 8 ≡ 0
    → q + z + 16 < 2 ^ 64
    → (a < q) ⊎ (q + (z + 16) ≤ a)
    → update m q z 0 a ≡ m a
update-outside m q z a whole bounded out =
    ground (arith, update_lem m q z false whole (omega arith) a)

clash : {b : Bool} → b ≡ false → b ≡ true → ⊥
clash p q = cc

module _ {src : PageSource} where
  abbrev pub with_words : CoreHeap src → Words → CoreHeap src
  with_words h m = record h { words = m }

  pub Behind-Shape :
      (h : CoreHeap src) (q z : ℕ) (bs : List Block) (last : ℕ)
      → Behind src h q z bs last
      → Shape src (with_words h (update h.words q z 0)) q (block z false ∷ bs) last
  Behind-Shape h q z bs last b =
      let small : q + z + 16 < 2 ^ 64 = omega (arith, b.ends, b.bounded) in
      let words = update_lem h.words q z false b.whole (omega arith) in
      record {
        seg = (
          (b.whole, words q ∙ ground arith),
          words (q + 8 + z) ∙ ground arith,
          Seg-frame h.words (update h.words q z 0) (q + (z + 16)) bs b.seg
              (λ a lo hi. update-outside h.words q z a b.whole small (inr lo)),
        );
        tail = (
          b.tail.0,
          ap (update h.words q z 0) (omega arith)
              ∙ update-outside h.words q z (q + (z + 16) + total bs) b.whole small
                  (inr (omega arith))
              ∙ b.tail.1,
        );
        ends = omega (arith, b.ends);
        bounded = b.bounded;
        pages = b.pages;
      }

  -- The result of merge_next on a free block at `q`.
  pub record Joined (h : CoreHeap src) (q z : ℕ) (bs : List Block) (last : ℕ) (h' : CoreHeap src)
      : Type 0 where
    pub shape : Shape src h' q (joined_blocks z bs) (joined_last z bs last)
    pub same_alloc : h'.alloc ≡ h.alloc
    pub below : (a : ℕ) → a < q → h'.words a ≡ h.words a
    pub kept : (a : ℕ) → Live (q + (z + 16)) bs a → h'.words a ≡ h.words a

  last_fits :
      (h : CoreHeap src) (q z : ℕ) (bs : List Block) (last : ℕ)
      → Shape src h q (block z false ∷ bs) last
      → q + z + 32 ≤ src.top h.alloc
  last_fits h q z bs last shape = omega (arith, shape.ends)

  unchanged :
      (h : CoreHeap src) (q : ℕ)
      → is_present (h.words (next_block h.words q)) ≡ true
      → merge_next src h q ≡ h
  unfolding merge_next
  unchanged h q busy = rw busy (ground arith)

  joins :
      (h : CoreHeap src) (q z c : ℕ)
      → IsBlock h.words q (block z false)
      → IsBlock h.words (q + (z + 16)) (block c false)
      → q + z + c + 32 ≤ src.top h.alloc
      → src.top h.alloc < 2 ^ 64
      → merge_next src h q ≡ with_words h (update h.words q (z + (c + 16)) 0)
  unfolding merge_next
  joins h q z c here there inside bounded =
      let next : next_block h.words q ≡ q + (z + 16) =
        next_block_lem h q (block z false) here (omega arith) in
      let reached : leb (q + (z + 16)) (src.top h.alloc) ≡ true =
        le→leb (q + (z + 16)) (src.top h.alloc) (omega arith) in
      let size = clear_flags-flag z false here.0 (omega arith) in
      let next_size = clear_flags-flag c false there.0 (omega arith) in
      let sum : add64 z (block_size c) ≡ z + (c + 16) = omega arith in
      rw (next, reached, there.1, is_present-flag c false there.0, here.1, size, next_size, sum)

  Joined-cons :
      (h : CoreHeap src) (q z : ℕ) (c : Block) (cs : List Block) (last : ℕ)
      → Shape src h q (block z false ∷ c ∷ cs) last
      → c.present ≡ false
      → Joined h q z (c ∷ cs) last (merge_next src h q)
  Joined-cons h q z c cs last shape free =
      let there : IsBlock h.words (q + (z + 16)) (block c.size false) =
        (shape.seg.2.0.0, shape.seg.2.0.1 ∙ rw free) in
      let inside : q + z + c.size + 32 ≤ src.top h.alloc = omega (arith, shape.ends) in
      let whole : (z + (c.size + 16)) % 8 ≡ 0 = omega (arith, shape.seg.0.0, there.0) in
      let bounded : q + (z + (c.size + 16)) + 16 < 2 ^ 64 = omega (arith, shape.bounded) in
      let moved : q + (z + 16) + span c ≡ q + (z + (c.size + 16) + 16) = omega arith in
      let behind : Behind src h q (z + (c.size + 16)) cs last = record {
        whole = whole;
        seg = rw moved at shape.seg.2.2;
        tail = (shape.tail.0, ap h.words (omega arith) ∙ shape.tail.1);
        ends = omega (arith, shape.ends);
        bounded = shape.bounded;
        pages = shape.pages;
      } in
      rw (joins h q z c.size shape.seg.0 there inside shape.bounded) (record {
        shape = rw free (Behind-Shape h q (z + (c.size + 16)) cs last behind);
        same_alloc = refl;
        below = λ a lt. update-outside h.words q (z + (c.size + 16)) a whole bounded (inl lt);
        kept = λ a live. elim live [
          | inl here ↦ absurd (clash free here.0)
          | inr rest ↦
              update-outside h.words q (z + (c.size + 16)) a whole bounded
                (inr (omega (arith, Live-le (q + (z + 16) + span c) cs a rest)))
        ];
      })

  pub merge_next-Joined :
      (h : CoreHeap src) (q z : ℕ) (bs : List Block) (last : ℕ)
      → Shape src h q (block z false ∷ bs) last
      → Joined h q z bs last (merge_next src h q)
  merge_next-Joined h q z [] last shape =
      let behind : IsBlock h.words (q + (z + 16)) (block last false) =
        (shape.tail.0, ap h.words (omega arith) ∙ shape.tail.1) in
      let inside : q + z + last + 32 ≤ src.top h.alloc = omega (arith, shape.ends) in
      let whole : (z + (last + 16)) % 8 ≡ 0 = omega (arith, shape.seg.0.0, shape.tail.0) in
      let bounded : q + (z + (last + 16)) + 16 < 2 ^ 64 = omega (arith, shape.bounded) in
      rw (joins h q z last shape.seg.0 behind inside shape.bounded) (record {
        shape = record {
          seg = tt;
          tail = (
            whole,
            update_lem h.words q (z + (last + 16)) false whole (omega arith) (q + 0) ∙ ground arith,
          );
          ends = omega (arith, shape.ends);
          bounded = shape.bounded;
          pages = shape.pages;
        };
        same_alloc = refl;
        below = λ a lt. update-outside h.words q (z + (last + 16)) a whole bounded (inl lt);
        kept = λ a live. absurd live;
      })
  merge_next-Joined h q z (c ∷ cs) last shape = elim (Bool-cases c.present) [
    | inl busy ↦ rw (unchanged h q (next_present busy)) (record {
      shape = simp busy shape;
      same_alloc = refl;
      below = λ a lt. refl;
      kept = λ a live. refl;
    })
    | inr free ↦ Joined-cons h q z c cs last shape free
  ]
    where
      next_present : c.present ≡ true → is_present (h.words (next_block h.words q)) ≡ true
      next_present busy =
          let next : next_block h.words q ≡ q + (z + 16) =
            next_block_lem h q (block z false) shape.seg.0
              (omega (arith, shape.ends, shape.bounded)) in
          rw (next, shape.seg.2.0.1, is_present-flag c.size c.present shape.seg.2.0.0) busy
