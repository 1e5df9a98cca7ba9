-- ===== src/Memory/CoreHeap/Steps.antt =====
-- What one update, one split and one growth do to the words of the heap.
use mathlib.Core.Logic.{◌⊎◌}
use tachyon.Base.{
  ℕ, ◌+◌, ◌-◌, ◌%◌, ◌^◌, ◌≤◌, ◌<◌, ◌≡◌, refl, ◌∙◌, Bool, true, false, arith, ◌==◌, if◌then◌else◌,
  ok,
}
use tachyon.Base.Bits.{add64, sub64}
use tachyon.Memory.PageSource.{PageSource, Grows}
use tachyon.Memory.CoreHeap.{
  CoreHeap, Words, clear_flags, update, split, fits, grow, block_ptr, next_block, block_size,
}
use tachyon.Memory.CoreHeap.Words.{
  flag, clear_flags_lem, bit_or-flag, bit_or-footer, is_footer-flag, is_present-flag,
}
use tachyon.Memory.CoreHeap.Blocks.{Block, block, span, IsBlock, IsFooted, has_room}

pub clear_flags-flag :
    (size : ℕ) (b : Bool) → size % 8 ≡ 0 → size + 1 < 2 ^ 64 → clear_flags (size + flag b) ≡ size
clear_flags-flag size true h k = clear_flags_lem (size + 1) (omega arith) ∙ omega arith
clear_flags-flag size false h k = clear_flags_lem (size + 0) (omega arith) ∙ omega arith

-- CHEAP_BLOCK_UPDATE writes the header and the footer, and nothing else.
pub update_lem :
    (m : Words) (p size : ℕ) (b : Bool)
    → size % 8 ≡ 0
    → p + size + 16 < 2 ^ 64 + 1
    → (a : ℕ)
    → update m p size (flag b) a
      ≡ (if a == p + 8 + size then size + flag b + 2 else if a == p then size + flag b else m a)
unfolding update
update_lem m p size b whole bounded a =
    let self : (p == p) ≡ true = ground arith in
    let at_foot : add64 (add64 p 8) size ≡ p + 8 + size = omega arith in
    rw (
      bit_or-flag size b whole,
      self,
      clear_flags-flag size b whole (omega arith),
      bit_or-footer size b whole,
      at_foot,
    )

split_result :
    (src : PageSource) (h : CoreHeap src) (p n : ℕ)
    → (split src h p n).1 ≡ block_ptr (split src h p n).0.words p
unfolding split
split_result src h p n = refl

module _ {src : PageSource} (h : CoreHeap src) where
  pub fits-has_room :
      (p n : ℕ) (b : Block)
      → IsBlock h.words p b
      → b.size + 16 < 2 ^ 64
      → n + 16 < 2 ^ 64
      → fits src h p n ≡ has_room n b
  unfolding fits
  fits-has_room p n b (whole, head) bounded small =
      let sum : block_size n ≡ n + 16 = omega arith in
      rw (
        head,
        is_present-flag b.size b.present whole,
        clear_flags-flag b.size b.present whole (omega arith),
        sum,
      )

  pub next_block_lem :
      (p : ℕ) (b : Block)
      → IsBlock h.words p b
      → p + span b < 2 ^ 64
      → next_block h.words p ≡ p + span b
  next_block_lem p b (whole, head) bounded =
      rw (head, clear_flags-flag b.size b.present whole (omega arith)) (omega arith)

  -- The two blocks of a split, and everything else as before.
  module _ (p n s : ℕ) (free : IsBlock h.words p (block s false)) (whole : n % 8 ≡ 0)
      (room : n + 16 ≤ s) (bounded : p + s + 16 < 2 ^ 64) where
    pub split_words :
        (a : ℕ)
        → (split src h p n).0.words a ≡ (
            if a == p + 8 + n
            then n + 1 + 2
            else if a == p
            then n + 1
            else if a == p + 8 + s
            then s - n - 16 + 2
            else if a == p + n + 16
            then s - n - 16
            else h.words a)
    unfolding split
    split_words a =
        let size : clear_flags (h.words p) ≡ s =
          rw free.1 (clear_flags-flag s false free.0 (omega arith)) in
        let behind : add64 p (block_size n) ≡ p + n + 16 = omega arith in
        let rest : sub64 s (block_size n) ≡ s - n - 16 = omega arith in
        rw (size, behind, rest)
          (ground (
            arith,
            update_lem (update h.words (p + n + 16) (s - n - 16) 0) p n true whole (omega arith) a,
            update_lem h.words (p + n + 16) (s - n - 16) false (omega (arith, free.0)) (omega arith)
                a,
          ))

    split_head : (split src h p n).0.words p ≡ n + flag true
    split_head = ground (arith, split_words p)

    pub split_pointer : (split src h p n).1 ≡ p + 8
    split_pointer =
        split_result src h p n ∙ rw (split_head, is_footer-flag n true whole) (omega arith)

  -- The last block takes in the page that was added behind it.
  pub grow_lem :
      (p s : ℕ) {t : src.State}
      → IsBlock h.words p (block s false)
      → Grows src h.alloc t
      → src.page h.alloc % 8 ≡ 0
      → p + s + src.page h.alloc + 16 < 2 ^ 64
      → grow src h p ≡ ok (record { words = update h.words p (s + src.page h.alloc) 0; alloc = t })
  unfolding grow
  grow_lem p s free grows pages bounded =
      let size : clear_flags (h.words p) ≡ s =
        rw free.1 (clear_flags-flag s false free.0 (omega arith)) in
      let sum : add64 s (src.page h.alloc) ≡ s + src.page h.alloc = omega arith in
      rw (grows.returns, size, grows.same_page, sum)

-- A split as two blocks.
pub record Halves (src : PageSource) (h : CoreHeap src) (p n s : ℕ) (h' : CoreHeap src)
    : Type 0 where
  pub same_alloc : h'.alloc ≡ h.alloc
  pub new_block : IsBlock h'.words p (block n true)
  pub new_foot : IsFooted h'.words p (block n true)
  pub rest_block : IsBlock h'.words (p + (n + 16)) (block (s - n - 16) false)
  pub rest_foot : IsFooted h'.words (p + (n + 16)) (block (s - n - 16) false)
  pub outside : (a : ℕ) → (a < p) ⊎ (p + s + 16 ≤ a) → h'.words a ≡ h.words a

split_alloc : (src : PageSource) (h : CoreHeap src) (p n : ℕ) → (split src h p n).0.alloc ≡ h.alloc
unfolding split
split_alloc src h p n = refl

pub split-Halves :
    (src : PageSource) (h : CoreHeap src) (p n s : ℕ)
    → IsBlock h.words p (block s false)
    → n % 8 ≡ 0
    → n + 16 ≤ s
    → p + s + 16 < 2 ^ 64
    → Halves src h p n s (split src h p n).0
split-Halves src h p n s free whole room bounded =
    let words = split_words h p n s free whole room bounded in
    record {
      same_alloc = split_alloc src h p n;
      new_block = (whole, ground (arith, words p));
      new_foot = ground (arith, words (p + 8 + n));
      rest_block = (omega (arith, free.0), ground (arith, words (p + (n + 16))));
      rest_foot = ground (arith, words (p + (n + 16) + 8 + (s - n - 16)));
      outside = λ a out. ground (arith, words a);
    }
