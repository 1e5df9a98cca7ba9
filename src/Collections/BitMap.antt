-- ===== src/Collections/BitMap.antt =====
-- BitMap (include/tachyon.collections/BitMap.h, core/tachyon.collections/BitMap.cc): bits packed
-- into bytes. An index and a result of type ssize_t is a 64-bit word, read as signed.
pub mod Byte
pub mod Laws
pub mod Search
mod Tests
use tachyon.Base.{
  ℕ, zero, suc, ◌+◌, ◌-◌, ◌*◌, ◌/◌, ◌%◌, ◌^◌, ◌≡◌, Bool, true, false, not, List, bit_and, bit_or,
  leb, ltb, ◌==◌, if◌then◌else◌, Outcome, ok, fatal, out_of_fuel, ◌>>=◌, ◌>>◌, get_or, set,
  replicate, same,
}
use tachyon.Base.Bits.{word, u8}

pub record BitMap : Type 0 where
  pub byte_count : ℕ
  pub memory : List ℕ

-- sizeof(memory[0]) * 8
abbrev pub item_bits : ℕ
item_bits = 8

-- GET_BIT: the masked byte, converted to bool.
unfoldable pub test_bit : ℕ → ℕ → Bool
test_bit b k = not (bit_and b (2 ^ k) == 0)

-- SET_BIT on the byte: `|= 1 << k`, and `&= ~(1 << k)` with the complement taken in int.
unfoldable pub put_bit : ℕ → ℕ → Bool → ℕ
put_bit b k true = u8 (bit_or b (2 ^ k))
put_bit b k false = u8 (bit_and b (2 ^ 32 - 1 - 2 ^ k))

-- The bit that GET_BIT reads.
unfoldable pub bit_at : BitMap → ℕ → Bool
bit_at m i = test_bit (get_or m.memory (i / item_bits) 0) (i % item_bits)

-- The bytes after SET_BIT.
unfoldable pub with_bit : BitMap → ℕ → Bool → BitMap
with_bit m i v = record m {
  memory =
      set m.memory (i / item_bits) (put_bit (get_or m.memory (i / item_bits) 0) (i % item_bits) v);
}

unfoldable pub size : BitMap → ℕ
size m = m.byte_count * 8

-- CHECK_INDEX stops the kernel on an index out of range.
unfoldable pub get : BitMap → ℕ → Outcome Bool
get m i = if leb m.byte_count (i / item_bits) then fatal else ok (bit_at m i)

-- `assign` is BitMap::set.
unfoldable pub assign : BitMap → ℕ → Bool → Outcome BitMap
assign m i v = if leb m.byte_count (i / item_bits) then fatal else ok (with_bit m i v)

-- MemoryHelper::fill over the whole storage.
unfoldable pub set_all : BitMap → Bool → BitMap
set_all m v = record m { memory = replicate m.byte_count (if v then 0xFF else 0) }

unfoldable pub clear : BitMap → BitMap
clear m = record m { memory = replicate m.byte_count 0 }

-- The result -1 of a search.
abbrev pub not_found : ℕ
not_found = word - 1

-- The loop at `start` with `rounds` tests of `start <= byteCount * sizeof(memory[0])` to come.
unfoldable pub scan : ℕ → BitMap → Bool → ℕ → Outcome ℕ
scan zero m value start = ok not_found
scan (suc rounds) m value start =
    let rest = scan rounds m value (start + 1) in
    get m start >>= λ b. if same b value then ok start else rest

-- `if(start < 0) start = 0`, on the word that stands for a signed start.
abbrev pub clamp_start : ℕ → ℕ
clamp_start start = if leb (2 ^ 63) start then 0 else start

unfoldable pub get_index_of_from : BitMap → Bool → ℕ → Outcome ℕ
get_index_of_from m value start =
    scan (m.byte_count * 1 + 1 - clamp_start start) m value (clamp_start start)

unfoldable pub get_index_of : BitMap → Bool → Outcome ℕ
get_index_of m value = get_index_of_from m value 0
