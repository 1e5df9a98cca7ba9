-- ===== src/Binary/Elf/Info.antt =====
-- The packed fields of symbols and relocations (include/tachyon.binary/elf/sym.h and rel.h).
use tachyon.Base.{ℕ, ◌+◌, ◌*◌, ◌%◌, ◌^◌, ◌<◌, ◌≡◌, refl, arith}
use tachyon.Base.Bits.{bit_and_mask}
use tachyon.Binary.Elf.{sti_decode, sti_encode, ri_decode, ri_encode, ri_decode_x86, ri_encode_x86}

-- A pair is equal to another if its parts are.
fields : (q r a t : ℕ) → q ≡ a → r ≡ t → Path (ℕ × ℕ) (q, r) (a, t)
fields q r a t high low = rw (high, low) refl

-- The binding and the type of a symbol come back, if each has four bits.
pub sti_decode-sti_encode : (b t : ℕ) → b < 2 ^ 4 → t < 2 ^ 4 → sti_decode (sti_encode b t) ≡ (b, t)
unfolding sti_decode sti_encode
sti_decode-sti_encode b t low short =
    rw (bit_and_mask 4 t, bit_and_mask 4 ((b * 2 ^ 4 + t % 2 ^ 4) % 2 ^ 8))
      (fields _ _ _ _ (omega arith) (omega arith))

-- A byte is packed again from the fields that it is split into.
pub sti_encode-sti_decode : (i : ℕ) → i < 2 ^ 8 → sti_encode (sti_decode i).0 (sti_decode i).1 ≡ i
unfolding sti_decode sti_encode
sti_encode-sti_decode i byte = rw (bit_and_mask 4 i, bit_and_mask 4 (i % 2 ^ 4)) (omega arith)

-- The symbol and the type of a relocation come back, if each has 32 bits.
pub ri_decode-ri_encode : (s t : ℕ) → s < 2 ^ 32 → t < 2 ^ 32 → ri_decode (ri_encode s t) ≡ (s, t)
unfolding ri_decode ri_encode
ri_decode-ri_encode s t low short =
    rw (bit_and_mask 32 t, bit_and_mask 32 ((s * 2 ^ 32 % 2 ^ 64 + t % 2 ^ 32) % 2 ^ 64))
      (fields _ _ _ _ (omega arith) (omega arith))

-- A word is packed again from the symbol and the type that it is split into.
pub ri_encode-ri_decode : (i : ℕ) → i < 2 ^ 64 → ri_encode (ri_decode i).0 (ri_decode i).1 ≡ i
unfolding ri_decode ri_encode
ri_encode-ri_decode i fits = rw (bit_and_mask 32 i, bit_and_mask 32 (i % 2 ^ 32)) (omega arith)

-- In the 32-bit build the symbol comes back if it has 24 bits, and the type if it has eight.
pub ri_decode_x86-ri_encode_x86 :
    (s t : ℕ) → s < 2 ^ 24 → t < 2 ^ 8 → ri_decode_x86 (ri_encode_x86 s t) ≡ (s, t)
unfolding ri_decode_x86 ri_encode_x86
ri_decode_x86-ri_encode_x86 s t low short =
    rw (bit_and_mask 8 t, bit_and_mask 8 ((s * 2 ^ 8 % 2 ^ 32 + t % 2 ^ 8) % 2 ^ 32))
      (fields _ _ _ _ (omega arith) (omega arith))

-- In the 32-bit build, a word is packed again from the symbol and the type that it is split into.
pub ri_encode_x86-ri_decode_x86 :
    (i : ℕ) → i < 2 ^ 32 → ri_encode_x86 (ri_decode_x86 i).0 (ri_decode_x86 i).1 ≡ i
unfolding ri_decode_x86 ri_encode_x86
ri_encode_x86-ri_decode_x86 i fits = rw (bit_and_mask 8 i, bit_and_mask 8 (i % 2 ^ 8)) (omega arith)
