-- ===== src/Collections/BitMap/Tests.antt =====
-- The bitmap on small storage.
use tachyon.Base.{ℕ, ◌+◌, ◌≡◌, refl, true, false, [], ◌∷◌, ok, fatal, arith}
use tachyon.Collections.BitMap.{
  BitMap, get, assign, bit_at, get_index_of, get_index_of_from, not_found, test_bit, put_bit,
  with_bit, scan,
}
use tachyon.Collections.BitMap.Laws.{IsBitMap}
use tachyon.Collections.BitMap.Search.{Finds, get_index_of_from-Finds}

abbrev two_bytes : BitMap
two_bytes = record { byte_count = 2; memory = 0x81 ∷ 0x03 ∷ [] }

two_bytes-IsBitMap : IsBitMap two_bytes
two_bytes-IsBitMap = omega arith

reads : (get two_bytes 7 ≡ ok true) × (get two_bytes 10 ≡ ok false) × (get two_bytes 16 ≡ fatal)
unfolding get bit_at test_bit
reads = (refl, refl, refl)

writes : assign two_bytes 7 false ≡ ok (record { byte_count = 2; memory = 1 ∷ 3 ∷ [] })
unfolding assign with_bit put_bit
writes = refl

-- Bits 3 to 15 are not looked at.
searches :
    (get_index_of two_bytes false ≡ ok 1) × (get_index_of_from two_bytes true 1 ≡ ok not_found)
unfolding get_index_of get_index_of_from scan get bit_at test_bit
searches = (refl, refl)

get_index_of_from-Finds_example :
    (r : ℕ) × (get_index_of_from two_bytes true 1 ≡ ok r) × Finds two_bytes true 1 (2 + 1) r
get_index_of_from-Finds_example =
    get_index_of_from-Finds two_bytes-IsBitMap true 1 (omega arith) (omega arith) (omega arith)
