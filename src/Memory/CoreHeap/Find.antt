-- ===== src/Memory/CoreHeap/Find.antt =====
-- CoreHeap::allocate (core/tachyon.memory/CoreHeap.cc), its loop: the first block with room is split,
-- and without one the last block grows.
use tachyon.Base.{
  ℕ, zero, suc, ◌+◌, ◌*◌, ◌%◌, ◌^◌, ◌≤◌, ◌<◌, ◌≡◌, ap, ◌∙◌, ◌⊎◌, inl, inr, true, false, not, ◌&&◌,
  List, [], ◌∷◌, arith, ltb, leb, ◌==◌, le→leb, lt→leb, Bool-cases, length, Outcome,
}
use native.Mathlib.Nat.{suc-mul}
use tachyon.Memory.PageSource.{PageSource, Grows, Supplies}
use tachyon.Memory.CoreHeap.{CoreHeap, next_block, has_next, find_block, update}
use tachyon.Memory.CoreHeap.Blocks.{Block, block, span, Shape, has_room}
use tachyon.Memory.CoreHeap.Steps.{update_lem, fits-has_room, next_block_lem, grow_lem}
use tachyon.Memory.CoreHeap.Place.{Placed, clash, at_end, tail_split, first_split, skip_block}

-- Some block of the list has room for `n` bytes.
abbrev pub SomeRoom : ℕ → List Block → Type 0
SomeRoom n [] = ⊥
SomeRoom n (b ∷ bs) = (has_room n b ≡ true) ⊎ SomeRoom n bs

-- The heap can grow by `k` pages, which give a last block of `last` bytes room for `n` bytes.
abbrev pub CanGrow : (src : PageSource) → src.State → ℕ → ℕ → ℕ → Type 0
CanGrow src alloc k last n =
    Supplies src k alloc
    × (n + 16 ≤ last + k * src.page alloc)
    × (src.top alloc + k * src.page alloc < 2 ^ 64)

-- A request finds its block in the list, or at the top.
abbrev pub Served : (src : PageSource) → src.State → ℕ → List Block → ℕ → ℕ → Type 0
Served src alloc k bs last n = SomeRoom n bs ⊎ CanGrow src alloc k last n

module _ {src : PageSource} where
  enters :
      (h : CoreHeap src) (p : ℕ)
      → 0 < p
      → p < src.top h.alloc
      → (not (p == 0) && ltb p (src.top h.alloc)) ≡ true
  enters h p pos lt = ground arith

  -- What is found after one growth is found with one page more.
  after_growth :
      (h : CoreHeap src) (p last n : ℕ) (t : src.State) {r : Outcome (CoreHeap src × ℕ)}
      → Grows src h.alloc t
      → last % 8 ≡ 0
      → p + last + src.page h.alloc + 16 < 2 ^ 64
      → src.page h.alloc % 8 ≡ 0
      → Placed src
          (record { words = update h.words p (last + src.page h.alloc) 0; alloc = t })
          p
          []
          (last + src.page h.alloc)
          n
          r
      → Placed src h p [] last n r
  after_growth h p last n t grows whole bounded pages rest =
      let more : last + src.page h.alloc + rest.grown * src.page t
          ≡ last + suc rest.grown * src.page h.alloc =
        rw grows.same_page (omega (arith, suc-mul rest.grown (src.page h.alloc))) in
      record {
        heap = rest.heap;
        grown = suc rest.grown;
        returns = rest.returns;
        shape = rw more at rest.shape;
        same_base = rest.same_base ∙ grows.same_base;
        higher =
            rest.higher
            ∙ rw (grows.higher, grows.same_page)
                (omega (arith, suc-mul rest.grown (src.page h.alloc)));
        below = λ a lt.
            rest.below a lt
            ∙ update_lem h.words p (last + src.page h.alloc) false (omega arith) (omega arith) a
            ∙ ground arith;
        kept = λ a live. absurd live;
      }

  grown_Shape :
      (h : CoreHeap src) (p last : ℕ) (t : src.State)
      → Shape src h p [] last
      → Grows src h.alloc t
      → src.top h.alloc + src.page h.alloc < 2 ^ 64
      → Shape src
          (record { words = update h.words p (last + src.page h.alloc) 0; alloc = t })
          p
          []
          (last + src.page h.alloc)
  grown_Shape h p last t shape grows bounded = record {
    seg = tt;
    tail = (
      omega (arith, shape.tail.0, shape.pages),
      update_lem h.words p (last + src.page h.alloc) false
            (omega (arith, shape.tail.0, shape.pages)) (omega (arith, shape.ends)) (p + 0)
          ∙ ground arith,
    );
    ends = rw grows.higher (omega (arith, shape.ends));
    bounded = rw grows.higher bounded;
    pages = rw grows.same_page shape.pages;
  }

  no_next : (h : CoreHeap src) (p last : ℕ) → Shape src h p [] last → has_next src h p ≡ false
  no_next h p last shape =
      let ends : next_block h.words p ≡ src.top h.alloc =
        next_block_lem h p (block last false) (at_end h p last shape)
          (omega (arith, shape.ends, shape.bounded))
        ∙ omega (arith, shape.ends) in
      rw (ends, le→leb (src.top h.alloc) (src.top h.alloc) (omega arith))

  tail_find :
      (fuel k : ℕ) (h : CoreHeap src) (p last n : ℕ)
      → Shape src h p [] last
      → n % 8 ≡ 0
      → 0 < p
      → n + 16 < 2 ^ 64
      → Supplies src k h.alloc
      → n + 16 ≤ last + k * src.page h.alloc
      → src.top h.alloc + k * src.page h.alloc < 2 ^ 64
      → k < fuel
      → Placed src h p [] last n (find_block src fuel h p n)
  unfolding find_block
  tail_find zero k h p last n shape whole pos small supplies room bounded enough =
      absurd (omega arith)
  tail_find (suc fuel) zero h p last n shape whole pos small supplies room bounded enough =
      let fit =
        fits-has_room h p n (block last false) (at_end h p last shape)
          (omega (arith, shape.ends, shape.bounded)) small in
      let hit = le→leb (n + 16) last (omega arith) in
      rw (enters h p pos (omega (arith, shape.ends)), fit, hit)
        (tail_split h p last n shape whole (omega arith))
  tail_find (suc fuel) (suc k) h p last n shape whole pos small (t, grows, supplies) room bounded
        enough =
      let at_p = at_end h p last shape in
      let page = src.page h.alloc in
      let fit =
        fits-has_room h p n (block last false) at_p (omega (arith, shape.ends, shape.bounded))
          small in
      let h' : CoreHeap src = record { words = update h.words p (last + page) 0; alloc = t } in
      let once : src.top h.alloc + page < 2 ^ 64 = omega (arith, suc-mul k page) in
      rw (enters h p pos (omega (arith, shape.ends)), fit)
        (elim (Bool-cases (leb (n + 16) last)) [
          | inl hit ↦ rw hit (tail_split h p last n shape whole (ground arith))
          | inr miss ↦
              rw
                (
                  miss,
                  no_next h p last shape,
                  grow_lem h p last at_p grows shape.pages (omega (arith, shape.ends)),
                )
                (after_growth h p last n t grows shape.tail.0 (omega (arith, shape.ends))
                  shape.pages
                  (tail_find fuel k h' p (last + page) n (grown_Shape h p last t shape grows once)
                    whole pos small supplies (rw grows.same_page (omega (arith, suc-mul k page)))
                    (rw (grows.higher, grows.same_page) (omega (arith, suc-mul k page)))
                    (omega arith)))
        ])

  -- The whole search.
  pub find_block-Placed :
      (bs : List Block) (fuel k : ℕ) (h : CoreHeap src) (p last n : ℕ)
      → Shape src h p bs last
      → n % 8 ≡ 0
      → 0 < p
      → n + 16 < 2 ^ 64
      → Served src h.alloc k bs last n
      → length bs + k < fuel
      → Placed src h p bs last n (find_block src fuel h p n)
  unfolding find_block
  find_block-Placed [] fuel k h p last n shape whole pos small (inl nowhere) enough = absurd nowhere
  find_block-Placed [] fuel k h p last n shape whole pos small (inr (supplies, room, bounded))
        enough =
      tail_find fuel k h p last n shape whole pos small supplies room bounded (omega arith)
  find_block-Placed (b ∷ bs) zero k h p last n shape whole pos small served enough =
      absurd (omega arith)
  find_block-Placed (b ∷ bs) (suc fuel) k h p last n shape whole pos small served enough =
      let fit =
        fits-has_room h p n b shape.seg.0 (omega (arith, shape.ends, shape.bounded)) small in
      let next : next_block h.words p ≡ p + span b =
        next_block_lem h p b shape.seg.0 (omega (arith, shape.ends, shape.bounded)) in
      let goes_on : leb (src.top h.alloc) (p + span b) ≡ false =
        lt→leb (src.top h.alloc) (p + span b) (omega (arith, shape.ends)) in
      rw (enters h p pos (omega (arith, shape.ends)), fit)
        (elim (Bool-cases (has_room n b)) [
          | inl hit ↦ rw hit (first_split h p n last b bs shape whole hit)
          | inr miss ↦
              rw (miss, next, goes_on)
                (skip_block h p n last b bs shape miss (
                  find_block-Placed bs fuel k h (p + span b) last n
                    (record {
                      seg = shape.seg.2;
                      tail = (shape.tail.0, ap h.words (omega arith) ∙ shape.tail.1);
                      ends = omega (arith, shape.ends);
                      bounded = shape.bounded;
                      pages = shape.pages;
                    })
                    whole (omega arith) small (behind miss served) (omega arith)))
        ])
    where
      behind :
          has_room n b ≡ false
          → Served src h.alloc k (b ∷ bs) last n
          → Served src h.alloc k bs last n
      behind miss (inl (inl hit)) = absurd (clash miss hit)
      behind miss (inl (inr later)) = inl later
      behind miss (inr grows) = inr grows
