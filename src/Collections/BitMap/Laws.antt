-- ===== src/Collections/BitMap/Laws.antt =====
-- BitMap as a map from indices to bits.
use tachyon.Base.{
  ℕ, ◌*◌, ◌/◌, ◌%◌, ◌<◌, ◌≤◌, ◌≡◌, refl, Bool, true, false, ◌==◌, lt→leb, if◌then◌else◌, ok, fatal,
  arith, get_or, length, All, All-set, All-get_or, get_or-set, get_or-replicate,
  get_or-replicate_lt, All-replicate, length-set, length-replicate,
}
use tachyon.Collections.BitMap.{BitMap, put_bit, bit_at, with_bit, get, assign, set_all}
use tachyon.Collections.BitMap.Byte.{test_bit-put_bit, put_bit-lt, test_bit-zero, test_bit-full}

abbrev pub IsByte : ℕ → Type 0
IsByte b = b < 256

-- The storage has `byte_count` bytes.
pub record IsBitMap (m : BitMap) : Type 0 where
  pub sized : length m.memory ≡ m.byte_count
  pub bytes : All IsByte m.memory

module _ {m : BitMap} (valid : IsBitMap m) where
  pub get-bit_at : (i : ℕ) → i < m.byte_count * 8 → get m i ≡ ok (bit_at m i)
  unfolding get
  get-bit_at i h = rw (lt→leb m.byte_count (i / 8) (omega arith))

  pub assign-with_bit :
      (i : ℕ) (v : Bool) → i < m.byte_count * 8 → assign m i v ≡ ok (with_bit m i v)
  unfolding assign
  assign-with_bit i v h = rw (lt→leb m.byte_count (i / 8) (omega arith))

  pub byte_count-with_bit : (i : ℕ) (v : Bool) → (with_bit m i v).byte_count ≡ m.byte_count
  unfolding with_bit
  byte_count-with_bit i v = refl

  pub with_bit-IsBitMap : (i : ℕ) (v : Bool) → IsBitMap (with_bit m i v)
  unfolding with_bit
  with_bit-IsBitMap i v = record {
    sized = omega (
      arith,
      length-set {0} m.memory (i / 8) (put_bit (get_or m.memory (i / 8) 0) (i % 8) v),
      valid.sized,
    );
    bytes = All-set IsByte m.memory (i / 8) _ (put_bit-lt _ _ v) valid.bytes;
  }

  pub bit_at-with_bit :
      (i j : ℕ) (v : Bool)
      → i < m.byte_count * 8
      → bit_at (with_bit m i v) j ≡ (if i == j then v else bit_at m j)
  unfolding bit_at with_bit
  bit_at-with_bit i j v h = ground (
    arith,
    get_or-set m.memory (i / 8) (j / 8) (put_bit (get_or m.memory (i / 8) 0) (i % 8) v) 0,
    test_bit-put_bit (get_or m.memory (i / 8) 0) (i % 8) (j % 8) v
        (All-get_or IsByte m.memory (i / 8) 0 (omega arith) valid.bytes),
    valid.sized,
  )

-- Every bit of a map after setAll.
pub bit_at-set_all :
    (m : BitMap) (v : Bool) (i : ℕ) → i < m.byte_count * 8 → bit_at (set_all m v) i ≡ v
unfolding set_all bit_at
bit_at-set_all m true i h =
    rw (get_or-replicate_lt {A = ℕ} m.byte_count (i / 8) 0xFF 0 (omega arith))
      (test_bit-full (i % 8) (omega arith))
bit_at-set_all m false i h =
    rw (get_or-replicate {A = ℕ} m.byte_count (i / 8) 0) (test_bit-zero (i % 8) (omega arith))

pub set_all-IsBitMap : (m : BitMap) (v : Bool) → IsBitMap (set_all m v)
unfolding set_all
set_all-IsBitMap m true = record {
  sized = length-replicate m.byte_count 0xFF;
  bytes = All-replicate IsByte m.byte_count 0xFF (omega arith);
}
set_all-IsBitMap m false = record {
  sized = length-replicate m.byte_count 0;
  bytes = All-replicate IsByte m.byte_count 0 (omega arith);
}

-- BitMap::set succeeds at every index below the size, and get then reads the value at that index
-- and what it read before at every other index; both stop the kernel at an index past the size.
pub get-assign :
    {m : BitMap} (i : ℕ) (v : Bool)
    → IsBitMap m
    → i < m.byte_count * 8
    → (m' : BitMap) × (assign m i v ≡ ok m')
      × IsBitMap m'
      × ((j : ℕ) → get m' j ≡ (if i == j then ok v else get m j))
      × ((j : ℕ) → m.byte_count * 8 ≤ j → (get m' j ≡ fatal) × (assign m' j v ≡ fatal))
get-assign {m} i v valid h = (
  with_bit m i v,
  assign-with_bit valid i v h,
  with_bit-IsBitMap valid i v,
  λ j. unfold get in ground (arith, bit_at-with_bit valid i j v h, byte_count-with_bit valid i v),
  λ j past. (
    unfold get in ground (arith, byte_count-with_bit valid i v),
    unfold assign in ground (arith, byte_count-with_bit valid i v),
  ),
)
