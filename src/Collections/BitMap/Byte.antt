-- ===== src/Collections/BitMap/Byte.antt =====
-- One byte: a bit that is put reads back, and the other seven stay.
use tachyon.Base.{
  ℕ, ◌<◌, ◌≡◌, refl, Bool, true, false, same, same→eq, ◌==◌, if◌then◌else◌, arith, passes_below,
  passes_below_sound,
}
use tachyon.Collections.BitMap.{test_bit, put_bit}

-- Every byte, every bit put and every bit read.
abbrev bits_agree : Bool → ℕ → ℕ → ℕ → Bool
bits_agree v b k j = same (test_bit (put_bit b k v) j) (if k == j then v else test_bit b j)

abbrev row : Bool → ℕ → ℕ → Bool
row v b k = passes_below (bits_agree v b k) 8

abbrev page : Bool → ℕ → Bool
page v b = passes_below (row v b) 8

table_true : passes_below (page true) 256 ≡ true
unfolding passes_below test_bit put_bit
table_true = refl

table_false : passes_below (page false) 256 ≡ true
unfolding passes_below test_bit put_bit
table_false = refl

table : (v : Bool) → passes_below (page v) 256 ≡ true
table true = table_true
table false = table_false

pub test_bit-put_bit :
    (b k j : ℕ) (v : Bool)
    → b < 256
    → k < 8
    → j < 8
    → test_bit (put_bit b k v) j ≡ (if k == j then v else test_bit b j)
test_bit-put_bit b k j v hb hk hj = same→eq _ _ (
    passes_below_sound (bits_agree v b k) 8 j hj
      (passes_below_sound (row v b) 8 k hk (passes_below_sound (page v) 256 b hb (table v))))

pub put_bit-lt : (b k : ℕ) (v : Bool) → put_bit b k v < 256
unfolding put_bit
put_bit-lt b k true = omega arith
put_bit-lt b k false = omega arith

empty_table : passes_below (λ k. same (test_bit 0 k) false) 8 ≡ true
unfolding passes_below test_bit
empty_table = refl

full_table : passes_below (λ k. same (test_bit 0xFF k) true) 8 ≡ true
unfolding passes_below test_bit
full_table = refl

pub test_bit-zero : (k : ℕ) → k < 8 → test_bit 0 k ≡ false
test_bit-zero k h = same→eq _ _ (passes_below_sound _ 8 k h empty_table)

pub test_bit-full : (k : ℕ) → k < 8 → test_bit 0xFF k ≡ true
test_bit-full k h = same→eq _ _ (passes_below_sound _ 8 k h full_table)
