-- ===== src/Memory/CoreHeap/Words.antt =====
-- A block's header and footer words: a size that is a multiple of 8, and two flag bits.
use tachyon.Base.{ℕ, ◌+◌, ◌*◌, ◌/◌, ◌%◌, ◌^◌, ◌<◌, bit_or, ◌≡◌, refl, Bool, true, false, arith}
use tachyon.Base.Bits.{
  bit_and_high, bit_and_mask, bit_and_shifted, bit_or_fields, or_lowest, bit_or-zero,
}
use tachyon.Memory.CoreHeap.{clear_flags, align_up, is_present, is_footer}

abbrev pub flag : Bool → ℕ
flag true = 1
flag false = 0

pub clear_flags_lem : (w : ℕ) → w < 2 ^ 64 → clear_flags w ≡ w / 8 * 8
unfolding clear_flags
clear_flags_lem w h = bit_and_high 61 3 refl w h

pub align_up_lem : (x : ℕ) → x + 7 < 2 ^ 64 → align_up x ≡ (x + 7) / 8 * 8
unfolding align_up
align_up_lem x h = ground (arith, clear_flags_lem (x + 7) h)

pub is_present-flag : (size : ℕ) (b : Bool) → size % 8 ≡ 0 → is_present (size + flag b) ≡ b
unfolding is_present
is_present-flag size true h = ground (arith, bit_and_mask 1 (size + 1))
is_present-flag size false h = ground (arith, bit_and_mask 1 (size + 0))

pub is_present-footer : (size : ℕ) (b : Bool) → size % 8 ≡ 0 → is_present (size + flag b + 2) ≡ b
unfolding is_present
is_present-footer size true h = ground (arith, bit_and_mask 1 (size + 1 + 2))
is_present-footer size false h = ground (arith, bit_and_mask 1 (size + 0 + 2))

pub is_footer-flag : (size : ℕ) (b : Bool) → size % 8 ≡ 0 → is_footer (size + flag b) ≡ false
unfolding is_footer
is_footer-flag size true h =
    ground (arith, bit_and_shifted 1 (size + 1) 1, bit_and_mask 1 ((size + 1) / 2))
is_footer-flag size false h =
    ground (arith, bit_and_shifted 1 (size + 0) 1, bit_and_mask 1 ((size + 0) / 2))

pub bit_or-flag : (size : ℕ) (b : Bool) → size % 8 ≡ 0 → bit_or size (flag b) ≡ size + flag b
bit_or-flag size true h =
    let e : size / 8 * 8 ≡ size = omega arith in
    rw e at (bit_or_fields 3 (size / 8) 1 (omega arith))
bit_or-flag size false h =
    let e : size / 8 * 8 ≡ size = omega arith in
    rw e at (bit_or_fields 3 (size / 8) 0 (omega arith))

bit_or-two : (x : ℕ) → x % 4 < 2 → bit_or x 2 ≡ x + 2
bit_or-two x h = omega (arith, or_lowest x 2, or_lowest (x / 2) 1, bit_or-zero (x / 2 / 2))

pub bit_or-footer :
    (size : ℕ) (b : Bool) → size % 8 ≡ 0 → bit_or (size + flag b) 2 ≡ size + flag b + 2
bit_or-footer size true h = bit_or-two (size + 1) (omega arith)
bit_or-footer size false h = bit_or-two (size + 0) (omega arith)
