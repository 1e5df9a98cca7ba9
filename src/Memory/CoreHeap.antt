-- ===== src/Memory/CoreHeap.antt =====
-- CoreHeap (core/tachyon.memory/CoreHeap.cc): blocks with a header and a footer word, first fit.
-- Memory is a function from addresses to words; the words used are those at multiples of 8.
pub mod Words
pub mod Blocks
pub mod Steps
pub mod Place
pub mod Find
pub mod Merge
pub mod Allocate
pub mod Previous
pub mod Free
mod Tests
use tachyon.Base.{
  ℕ, zero, suc, ◌+◌, ◌-◌, ◌*◌, ◌/◌, ◌%◌, ◌^◌, ◌≤◌, ◌<◌, min, bit_and, bit_or, ◌≡◌, refl, sym, ap,
  ◌∙◌, ◌≢◌, ◌↔◌, ◌⊎◌, inl, inr, Bool, true, false, not, ◌&&◌, ◌||◌, Option, none, some, List, [],
  ◌∷◌, ◌++◌, map, arith, ltb, leb, ◌==◌, if◌then◌else◌, ltb→lt, lt→ltb, le→ltb, leb→le, le→leb,
  lt→leb, ==_iff, same, same→eq, Bool-cases, Option-cases, passes_below, passes_below_sound, length,
  get_elem?, get_or, set, take, drop, replicate, All, length-append, length-set, length-replicate,
  get_or-set, get_or-replicate, get_or-replicate_lt, get_or_ext, All-set, All-get_or, All-replicate,
  Outcome, ok, fatal, out_of_fuel, ◌>>=◌, ◌>>◌, kassert, >>=-eq-ok,
}
use tachyon.Base.Bits.{not64, add64, sub64}
use tachyon.Memory.PageSource.{PageSource}

abbrev pub Words : Type 0
Words = ℕ → ℕ

abbrev pub store : Words → ℕ → ℕ → Words
store m a v b = if b == a then v else m b

-- BLOCK_PRESENT, BLOCK_FOOTER
abbrev pub block_present : ℕ
block_present = 1

abbrev pub block_footer : ℕ
block_footer = 2

-- CHEAP_ALIGN_DN and CHEAP_CLEAR_FLAGS
unfoldable pub clear_flags : ℕ → ℕ
clear_flags x = bit_and x (not64 (8 - 1))

-- CHEAP_ALIGN_UP
unfoldable pub align_up : ℕ → ℕ
align_up x = clear_flags (add64 x (8 - 1))

-- CHEAP_BLOCKSZ
abbrev pub block_size : ℕ → ℕ
block_size x = add64 x 16

-- CHEAP_DATASIZE
abbrev pub data_size : ℕ → ℕ
data_size x = sub64 x 16

-- CHEAP_FOOTER(h)
abbrev pub footer : Words → ℕ → ℕ
footer m h = add64 (add64 h 8) (clear_flags (m h))

-- CHEAP_HEADER(f)
abbrev pub header : Words → ℕ → ℕ
header m f = sub64 (sub64 f 8) (clear_flags (m f))

unfoldable pub is_present : ℕ → Bool
is_present w = not (bit_and w block_present == 0)

unfoldable pub is_footer : ℕ → Bool
is_footer w = not (bit_and w block_footer == 0)

-- CHEAP_BLOCKPTR(x)
abbrev pub block_ptr : Words → ℕ → ℕ
block_ptr m x = if is_footer (m x) then sub64 x (clear_flags (m x)) else add64 x 8

-- CHEAP_NEXT_BLOCK(x)
abbrev pub next_block : Words → ℕ → ℕ
next_block m x = add64 x (block_size (clear_flags (m x)))

-- CHEAP_BLOCK_UPDATE(p, sz, f): the header, and then the footer that the new header points at.
unfoldable pub update : Words → ℕ → ℕ → ℕ → Words
update m p sz f =
    let m' = store m p (bit_or sz f) in store m' (footer m' p) (bit_or (bit_or sz f) block_footer)

module _ (src : PageSource) where
  open src use {State, base, top, page, increase}

  pub record CoreHeap : Type 0 where
    pub words : Words
    pub alloc : State

  unfoldable pub init : CoreHeap → Outcome CoreHeap
  init h = increase h.alloc >>= λ s.
      ok (record { words = store h.words (base s) (data_size (page s)); alloc = s })

  -- CHEAP_HAS_NEXT(x)
  abbrev pub has_next : CoreHeap → ℕ → Bool
  has_next h x = if leb (top h.alloc) (next_block h.words x) then false else true

  -- The split of a free block at `ptr`, and the pointer that the caller gets.
  unfoldable pub split : CoreHeap → ℕ → ℕ → CoreHeap × ℕ
  unfolding update
  split h ptr bytes =
      let new_f = add64 ptr (block_size bytes) in
      let new_sz = sub64 (clear_flags (h.words ptr)) (block_size bytes) in
      let m = update h.words new_f new_sz 0 in
      let m' = update m ptr bytes block_present in (record h { words = m' }, block_ptr m' ptr)

  unfoldable pub fits : CoreHeap → ℕ → ℕ → Bool
  fits h ptr bytes =
      not (is_present (h.words ptr)) && leb (block_size bytes) (clear_flags (h.words ptr))

  -- The block at `ptr` grows over the page that increase(1) added, or failed to add.
  unfoldable pub grow : CoreHeap → ℕ → Outcome CoreHeap
  unfolding update
  grow h ptr = increase h.alloc >>= λ s. ok (record {
    words = update h.words ptr (add64 (clear_flags (h.words ptr)) (page s)) 0;
    alloc = s;
  })

  unfoldable pub find_block : ℕ → CoreHeap → ℕ → ℕ → Outcome (CoreHeap × ℕ)
  find_block zero h ptr bytes = out_of_fuel
  find_block (suc fuel) h ptr bytes =
      let further = find_block fuel h (next_block h.words ptr) bytes in
      if not (ptr == 0) && ltb ptr (top h.alloc)
      then (if fits h ptr bytes
          then ok (split h ptr bytes)
          else if has_next h ptr
          then further
          else grow h ptr >>= (λ h'. find_block fuel h' ptr bytes))
      else ok (h, 0)

  unfoldable pub allocate : ℕ → CoreHeap → ℕ → Outcome (CoreHeap × ℕ)
  allocate fuel h bytes = do
    h' ← (if base h.alloc == top h.alloc then init h else ok h)
    find_block fuel h' (base h'.alloc) (align_up bytes)

  -- The freed block with the block before it, if that is free; `none` is the early return on a footer
  -- that points below the heap.
  unfoldable pub merge_previous : CoreHeap → ℕ → ℕ → Option (Words × ℕ)
  merge_previous h ptr block_sz =
      let prev_footer = sub64 ptr 8 in
      if ltb (base h.alloc) prev_footer && not (is_present (h.words prev_footer))
      then (let prev_hdr = header h.words prev_footer in
          if ltb prev_hdr (base h.alloc)
          then none
          else some (
            update h.words prev_hdr (add64 (block_size (clear_flags (h.words prev_hdr))) block_sz)
                0,
            prev_hdr,
          ))
      else some (update h.words ptr block_sz 0, ptr)

  -- The free block at `ptr` with the block after it, if that is free.
  unfoldable pub merge_next : CoreHeap → ℕ → CoreHeap
  merge_next h ptr =
      let next_hdr = next_block h.words ptr in
      if leb next_hdr (top h.alloc) && not (is_present (h.words next_hdr))
      then record h {
        words =
            update h.words ptr
              (add64 (clear_flags (h.words ptr)) (block_size (clear_flags (h.words next_hdr)))) 0;
      }
      else h

  abbrev pub merge_both : CoreHeap → Option (Words × ℕ) → CoreHeap
  merge_both h none = h
  merge_both h (some (m, ptr)) = merge_next (record h { words = m }) ptr

  unfoldable pub free : CoreHeap → ℕ → CoreHeap
  free h mem =
      let ptr = sub64 mem 8 in
      if mem == 0
      then h
      else if not (bit_and ptr (8 - 1) == 0)
      then h
      else if not (is_present (h.words ptr))
      then h
      else merge_both h (merge_previous h ptr (clear_flags (h.words ptr)))
