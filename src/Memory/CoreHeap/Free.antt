-- ===== src/Memory/CoreHeap/Free.antt =====
-- CoreHeap::free (core/tachyon.memory/CoreHeap.cc) on a block in use: what the list of blocks becomes.
use tachyon.Base.{
  ℕ, ◌+◌, ◌-◌, ◌%◌, ◌^◌, ◌≤◌, ◌<◌, ◌≡◌, ap, ◌∙◌, ◌⊎◌, inl, inr, true, false, List, [], ◌∷◌, ◌++◌,
  arith,
}
use tachyon.Memory.PageSource.{PageSource}
use tachyon.Memory.CoreHeap.{CoreHeap, update, is_present, merge_next, free}
use tachyon.Memory.CoreHeap.Blocks.{Block, block, total, Seg, Seg-frame, Shape, Live, Live-le}
use tachyon.Memory.CoreHeap.Merge.{
  joined_blocks, joined_last, Behind, Behind-Shape, merge_next-Joined, update-outside, with_words,
}
use tachyon.Memory.CoreHeap.Previous.{
  LastPresent, total_whole, last_footer, Live-lt, Shape-append, append-Shape, free_enters, alone,
  with_previous,
}

module _ {src : PageSource} where
  -- A block was given back: its address is base + (size of the blocks before it), plus 8 for the header.
  pub record Freed (h : CoreHeap src) (before after : List Block) (last : ℕ)
      (kept_before kept_after : ℕ → Type 0) (h' : CoreHeap src) : Type 0 where
    pub shape : Shape src h' (src.base h.alloc) (before ++ after) last
    pub same_alloc : h'.alloc ≡ h.alloc
    pub kept : (a : ℕ) → kept_before a ⊎ kept_after a → h'.words a ≡ h.words a

  merged :
      (h : CoreHeap src) (pre : List Block) (z : ℕ) (post : List Block) (last : ℕ)
      (live : ℕ → Type 0)
      → Seg h.words (src.base h.alloc) pre
      → Behind src h (src.base h.alloc + total pre) z post last
      → ((a : ℕ) → live a → Live (src.base h.alloc + total pre + (z + 16)) post a)
      → Freed h pre
          (joined_blocks z post)
          (joined_last z post last)
          (Live (src.base h.alloc) pre)
          live
          (merge_next src
            (with_words h (update h.words (src.base h.alloc + total pre) z 0))
            (src.base h.alloc + total pre))
  merged h pre z post last live front behind narrow =
      let q = src.base h.alloc + total pre in
      let h1 = with_words h (update h.words q z 0) in
      let joined = merge_next-Joined h1 q z post last (Behind-Shape h q z post last behind) in
      let small : q + z + 16 < 2 ^ 64 = omega (arith, behind.ends, behind.bounded) in
      let low = λ (a : ℕ) (lt : a < q).
        joined.below a lt ∙ update-outside h.words q z a behind.whole small (inl lt) in
      record {
        shape =
            append-Shape _ (src.base h.alloc) pre (joined_blocks z post) (joined_last z post last)
              (Seg-frame h.words _ (src.base h.alloc) pre front (λ a lo hi. low a hi)) joined.shape;
        same_alloc = joined.same_alloc;
        kept = λ a either. elim either [
          | inl before ↦ low a (Live-lt (src.base h.alloc) pre a before)
          | inr after ↦
              joined.kept a (narrow a after)
              ∙ update-outside h.words q z a behind.whole small
                  (inr (Live-le (q + (z + 16)) post a (narrow a after)))
        ];
      }

  -- free on a block in use that no free block stands before: its place takes a free block of the same size, which
  -- takes in a free block behind it, and no other block in use changes.
  pub free-keep :
      (h : CoreHeap src) (pre : List Block) (n : ℕ) (post : List Block) (last : ℕ)
      → Shape src h (src.base h.alloc) (pre ++ block n true ∷ post) last
      → LastPresent pre
      → src.base h.alloc % 8 ≡ 0
      → 8 ≤ src.base h.alloc
      → Freed h pre
          (joined_blocks n post)
          (joined_last n post last)
          (Live (src.base h.alloc) pre)
          (Live (src.base h.alloc + total pre + (n + 16)) post)
          (free src h (src.base h.alloc + total pre + 8))
  free-keep h pre n post last shape used aligned above =
      let (front, here) = Shape-append h (src.base h.alloc) pre (block n true ∷ post) last shape in
      let q = src.base h.alloc + total pre in
      let behind : Behind src h q n post last = record {
        whole = here.seg.0.0;
        seg = here.seg.2;
        tail = (here.tail.0, ap h.words (omega arith) ∙ here.tail.1);
        ends = omega (arith, here.ends);
        bounded = here.bounded;
        pages = here.pages;
      } in
      let whole : q % 8 ≡ 0 = omega (arith, total_whole h.words (src.base h.alloc) pre front) in
      rw
        (
          free_enters h q n whole here.seg.0 (omega (arith, here.ends, here.bounded))
              (omega (arith, here.ends, here.bounded)),
          alone h q n (omega arith) (omega (arith, here.ends, here.bounded))
              (before pre front used),
        )
        (merged h pre n post last (Live (q + (n + 16)) post) front behind (λ a live. live))
    where
      before :
          (bs : List Block)
          → Seg h.words (src.base h.alloc) bs
          → LastPresent bs
          → (src.base h.alloc + total bs ≤ src.base h.alloc)
            ⊎ (is_present (h.words (src.base h.alloc + total bs - 8)) ≡ true)
      before [] s p = inl (omega arith)
      before (b ∷ bs) s p = inr (last_footer h.words (src.base h.alloc) b bs s p)

  -- free on a block in use behind a free one: the two become one free block, which takes in a free block behind
  -- it, and no other block in use changes.
  pub free-join :
      (h : CoreHeap src) (pre : List Block) (s n : ℕ) (post : List Block) (last : ℕ)
      → Shape src h (src.base h.alloc) (pre ++ block s false ∷ block n true ∷ post) last
      → src.base h.alloc % 8 ≡ 0
      → 8 ≤ src.base h.alloc
      → Freed h pre
          (joined_blocks (s + 16 + n) post)
          (joined_last (s + 16 + n) post last)
          (Live (src.base h.alloc) pre)
          (Live (src.base h.alloc + total pre + (s + 16) + (n + 16)) post)
          (free src h (src.base h.alloc + total pre + (s + 16) + 8))
  free-join h pre s n post last shape aligned above =
      let (front, here) =
        Shape-append h (src.base h.alloc) pre (block s false ∷ block n true ∷ post) last shape in
      let q = src.base h.alloc + total pre in
      let moved : q + (s + 16) + (n + 16) ≡ q + (s + 16 + n + 16) = omega arith in
      let behind : Behind src h q (s + 16 + n) post last = record {
        whole = omega (arith, here.seg.0.0, here.seg.2.0.0);
        seg = rw moved at here.seg.2.2;
        tail = (here.tail.0, ap h.words (omega arith) ∙ here.tail.1);
        ends = omega (arith, here.ends);
        bounded = here.bounded;
        pages = here.pages;
      } in
      let whole : (q + (s + 16)) % 8 ≡ 0 =
        omega (arith, here.seg.0.0, total_whole h.words (src.base h.alloc) pre front) in
      rw
        (
          free_enters h (q + (s + 16)) n whole here.seg.2.0 (omega (arith, here.ends, here.bounded))
              (omega (arith, here.ends, here.bounded)),
          with_previous h q s n (omega arith) (omega (arith, here.ends, here.bounded)) here.seg.0
              here.seg.1,
        )
        (merged h pre (s + 16 + n) post last (Live (q + (s + 16) + (n + 16)) post) front behind
          (λ a live. rw moved at live))
