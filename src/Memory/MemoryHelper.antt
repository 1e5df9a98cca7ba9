-- ===== src/Memory/MemoryHelper.antt =====
-- MemoryHelper (core/tachyon.memory/x86_common/MemoryHelper.cc): moves of bytes by string
-- instructions, and searches. The memory is a function from addresses to bytes; a region does not
-- reach the end of the address space.
pub mod Copy
mod Tests
use tachyon.Base.{
  ℕ, zero, suc, ◌+◌, ◌-◌, ◌*◌, ◌/◌, ◌%◌, ◌^◌, ◌≤◌, ◌<◌, min, bit_and, bit_or, ◌≡◌, refl, sym, ap,
  ◌∙◌, ◌≢◌, ◌↔◌, ◌⊎◌, inl, inr, Bool, true, false, not, ◌&&◌, ◌||◌, Option, none, some, List, [],
  ◌∷◌, ◌++◌, map, arith, ltb, leb, ◌==◌, if◌then◌else◌, ltb→lt, lt→ltb, le→ltb, leb→le, le→leb,
  lt→leb, ==_iff, same, same→eq, Bool-cases, Option-cases, passes_below, passes_below_sound, length,
  get_elem?, get_or, set, take, drop, replicate, All, length-append, length-set, length-replicate,
  get_or-set, get_or-replicate, get_or-replicate_lt, get_or_ext, All-set, All-get_or, All-replicate,
  Outcome, ok, fatal, out_of_fuel, ◌>>=◌, ◌>>◌, kassert, >>=-eq-ok,
}

abbrev pub store_byte : ℕ → ℕ → (ℕ → ℕ) → ℕ → ℕ
store_byte a v mem x = if x == a then v else mem x

-- `cld; rep movsb`
unfoldable pub move_up : ℕ → ℕ → ℕ → (ℕ → ℕ) → ℕ → ℕ
move_up zero source dest mem = mem
move_up (suc n) source dest mem =
    move_up n (source + 1) (dest + 1) (store_byte dest (mem source) mem)

-- `std; rep movsb`
unfoldable pub move_down : ℕ → ℕ → ℕ → (ℕ → ℕ) → ℕ → ℕ
move_down zero source dest mem = mem
move_down (suc n) source dest mem =
    move_down n (source - 1) (dest - 1) (store_byte dest (mem source) mem)

unfoldable pub copy : ℕ → ℕ → ℕ → (ℕ → ℕ) → ℕ → ℕ
copy source dest num_bytes mem = if num_bytes == 0 then mem else move_up num_bytes source dest mem

unfoldable pub overlapping : ℕ → ℕ → ℕ → Bool
overlapping source dest num_bytes =
    (ltb source dest && ltb dest (source + num_bytes - 1))
    || (ltb dest source && ltb source (dest + num_bytes - 1))

-- `move_bytes` is MemoryHelper::move.
unfoldable pub move_bytes : ℕ → ℕ → ℕ → (ℕ → ℕ) → ℕ → ℕ
move_bytes source dest num_bytes mem =
    if num_bytes == 0
    then mem
    else if overlapping source dest num_bytes
    then move_up num_bytes source dest mem
    else move_down num_bytes (source + num_bytes - 1) (dest + num_bytes - 1) mem

-- `cld; rep stosb`
unfoldable pub fill : ℕ → ℕ → ℕ → (ℕ → ℕ) → ℕ → ℕ
fill dest byte zero mem = mem
fill dest byte (suc n) mem = fill (dest + 1) byte n (store_byte dest byte mem)

unfoldable pub zero_bytes : ℕ → ℕ → (ℕ → ℕ) → ℕ → ℕ
zero_bytes dest num_bytes mem = fill dest 0 num_bytes mem

-- The loop of find: `i++ < length` lets the index run from 1 to the length.
unfoldable pub find_from : ℕ → ℕ → ℕ → ℕ → (ℕ → ℕ) → Option ℕ
find_from zero mem byte i memory = none
find_from (suc rounds) mem byte i memory =
    let rest = find_from rounds mem byte (i + 1) memory in
    if memory (mem + (i + 1)) == byte then some (mem + (i + 1)) else rest

unfoldable pub find : ℕ → ℕ → ℕ → (ℕ → ℕ) → Option ℕ
find mem byte length memory = find_from length mem byte 0 memory

unfoldable pub rfind : ℕ → ℕ → ℕ → (ℕ → ℕ) → Option ℕ
rfind mem byte zero memory = none
rfind mem byte (suc length) memory =
    let rest = rfind mem byte length memory in
    if memory (mem + length) == byte then some (mem + length) else rest
