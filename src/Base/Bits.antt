-- ===== src/Base/Bits.antt =====
-- Masks, shifts and alignment on machine words, as arithmetic.
use Prim.Native.Nat.{
  ℕ, zero, suc, ◌+◌, ◌-◌, ◌*◌, ◌/◌, ◌%◌, ◌^◌, ◌≤◌, ◌<◌, min, max, bit_and, bit_or, digits,
  bit_and-bitwise, bit_or-bitwise,
}
use mathlib.Core.Path.{◌≡◌, refl, sym, ap, ◌∙◌}
use native.Mathlib.Nat.{
  suc-mul, pow-suc, one-le-pow, div-div-eq-div-mul, div-lt_iff_lt-mul, mod-eq_of_lt,
}
use native.Mathlib.Omega.{arith}

-- The 64-bit words of the x86-64 build.
abbrev pub word : ℕ
word = 2 ^ 64

abbrev pub u64 : ℕ → ℕ
u64 n = n % 2 ^ 64

abbrev pub u32 : ℕ → ℕ
u32 n = n % 2 ^ 32

abbrev pub u16 : ℕ → ℕ
u16 n = n % 2 ^ 16

abbrev pub u8 : ℕ → ℕ
u8 n = n % 2 ^ 8

-- ~n on a 64-bit word.
abbrev pub not64 : ℕ → ℕ
not64 n = 2 ^ 64 - 1 - n

abbrev pub sub64 : ℕ → ℕ → ℕ
sub64 a b = (a + 2 ^ 64 - b) % 2 ^ 64

abbrev pub add64 : ℕ → ℕ → ℕ
add64 a b = (a + b) % 2 ^ 64

-- The same on the 32-bit words of the x86 build.
abbrev pub not32 : ℕ → ℕ
not32 n = 2 ^ 32 - 1 - n

abbrev pub sub32 : ℕ → ℕ → ℕ
sub32 a b = (a + 2 ^ 32 - b) % 2 ^ 32

abbrev pub add32 : ℕ → ℕ → ℕ
add32 a b = (a + b) % 2 ^ 32

abbrev pub shl64 : ℕ → ℕ → ℕ
shl64 a k = a * 2 ^ k % 2 ^ 64

abbrev pub shr : ℕ → ℕ → ℕ
shr a k = a / 2 ^ k

-- `digits` counts down from its first number: a larger count changes nothing once the number has
-- run out, which leaves an equation for the lowest digit.
module _ (z : ℕ → ℕ) (f : ℕ → ℕ → ℕ) where
  digits_longer : (count x y : ℕ) → x ≤ count → digits z f (suc count) x y ≡ digits z f count x y
  digits_longer zero zero y enough = refl
  digits_longer zero (suc x) y enough = absurd (omega arith)
  digits_longer (suc count) zero y enough = refl
  digits_longer (suc count) (suc x) y enough =
      ap (λ (t : ℕ). t * 2 + f (suc x % 2) (y % 2))
        (digits_longer count (suc x / 2) (y / 2) (omega arith))

  digits_padded :
      (extra count x y : ℕ) → x ≤ count → digits z f (extra + count) x y ≡ digits z f count x y
  digits_padded zero count x y enough = ap (λ (t : ℕ). digits z f t x y) (omega arith)
  digits_padded (suc extra) count x y enough =
      ap (λ (t : ℕ). digits z f t x y) count'
      ∙ digits_longer (extra + count) x y (omega arith)
      ∙ digits_padded extra count x y enough
    where
      count' : suc extra + count ≡ suc (extra + count)
      count' = omega arith

  digits_halved : (x y : ℕ) → digits z f x (suc x / 2) y ≡ digits z f (suc x / 2) (suc x / 2) y
  digits_halved x y =
      let count : x ≡ (x - suc x / 2) + suc x / 2 = omega arith in
      ap (λ (t : ℕ). digits z f t (suc x / 2) y) count
      ∙ digits_padded (x - suc x / 2) (suc x / 2) (suc x / 2) y (omega arith)

pub and_lowest : (x y : ℕ) → bit_and x y ≡ bit_and (x / 2) (y / 2) * 2 + min (x % 2) (y % 2)
and_lowest (suc x) y =
    bit_and-bitwise (suc x) y
    ∙ ap (λ (t : ℕ). t * 2 + min (suc x % 2) (y % 2))
        (digits_halved (λ b. zero) min x (y / 2) ∙ sym (bit_and-bitwise (suc x / 2) (y / 2)))
and_lowest zero y = omega (arith, bit_and-bitwise 0 y, bit_and-bitwise 0 (y / 2))

pub or_lowest : (x y : ℕ) → bit_or x y ≡ bit_or (x / 2) (y / 2) * 2 + max (x % 2) (y % 2)
or_lowest (suc x) y =
    bit_or-bitwise (suc x) y
    ∙ ap (λ (t : ℕ). t * 2 + max (suc x % 2) (y % 2))
        (digits_halved (λ b. b) max x (y / 2) ∙ sym (bit_or-bitwise (suc x / 2) (y / 2)))
or_lowest zero y = omega (arith, bit_or-bitwise 0 y, bit_or-bitwise 0 (y / 2))

pub zero-bit_or : (y : ℕ) → bit_or 0 y ≡ y
zero-bit_or y = bit_or-bitwise 0 y

-- Induction by halving.
by_halves {ℓ} : (P : ℕ → Type ℓ) → P 0 → ((x : ℕ) → P (x / 2) → P x) → (top x : ℕ) → x ≤ top → P x
by_halves P base step top zero h = base
by_halves P base step zero (suc x) h = absurd (omega arith)
by_halves P base step (suc top) (suc x) h =
    step (suc x) (by_halves P base step top (suc x / 2) (omega arith))

pub bit_and-zero : (a : ℕ) → bit_and a 0 ≡ 0
bit_and-zero a =
    by_halves (λ x. bit_and x 0 ≡ 0) refl (λ x h. omega (arith, and_lowest x 0)) a a (omega arith)

pub bit_or-zero : (a : ℕ) → bit_or a 0 ≡ a
bit_or-zero a =
    by_halves (λ x. bit_or x 0 ≡ x) refl (λ x h. omega (arith, or_lowest x 0)) a a (omega arith)

double_pow : (q k : ℕ) → q * 2 ^ suc k ≡ 2 * (q * 2 ^ k)
double_pow q k = omega (arith, ap (λ (t : ℕ). q * t) (pow-suc 2 k))

-- `|` of a value whose low k bits are clear with one that fits them is a sum.
pub bit_or_fields : (k q r : ℕ) → r < 2 ^ k → bit_or (q * 2 ^ k) r ≡ q * 2 ^ k + r
bit_or_fields zero q r fits = ground (arith, bit_or-zero q)
bit_or_fields (suc k) q r fits = ground (
  arith,
  or_lowest (q * 2 ^ suc k) r,
  double_pow q k,
  bit_or_fields k q (r / 2) (omega (arith, pow-suc 2 k)),
)

bit_and_fields : (k q r : ℕ) → r < 2 ^ k → bit_and (q * 2 ^ k + r) (2 ^ k - 1) ≡ r
bit_and_fields zero q r fits = omega (arith, bit_and-zero (q * 1 + r))
bit_and_fields (suc k) q r fits = ground (
  arith,
  and_lowest (q * 2 ^ suc k + r) (2 ^ suc k - 1),
  double_pow q k,
  pow-suc 2 k,
  bit_and_fields k q (r / 2) (omega (arith, pow-suc 2 k)),
)

-- `& (2 ^ k - 1)` is the remainder by `2 ^ k`.
pub bit_and_mask : (k a : ℕ) → bit_and a (2 ^ k - 1) ≡ a % 2 ^ k
bit_and_mask k a = ground (arith, one-le-pow k 2, bit_and_fields k (a / 2 ^ k) (a % 2 ^ k))

-- A mask whose low k bits are clear.
pub bit_and_shifted : (k a m : ℕ) → bit_and a (m * 2 ^ k) ≡ bit_and (a / 2 ^ k) m * 2 ^ k
bit_and_shifted zero a m = ground arith
bit_and_shifted (suc k) a m = ground (
  arith,
  and_lowest a (m * 2 ^ suc k),
  double_pow m k,
  double_pow (bit_and (a / 2 ^ suc k) m) k,
  bit_and_shifted k (a / 2) m,
  div-div-eq-div-mul a 2 (2 ^ k),
  pow-suc 2 k,
)

-- `|` with a value whose low k bits are clear leaves the low k bits.
pub bit_or_shifted : (k a m : ℕ) → bit_or a (m * 2 ^ k) ≡ bit_or (a / 2 ^ k) m * 2 ^ k + a % 2 ^ k
bit_or_shifted zero a m = ground arith
bit_or_shifted (suc k) a m = ground (
  arith,
  or_lowest a (m * 2 ^ suc k),
  double_pow m k,
  double_pow (bit_or (a / 2 ^ suc k) m) k,
  bit_or_shifted k (a / 2) m,
  div-div-eq-div-mul a 2 (2 ^ k),
  pow-suc 2 k,
)

pub two_pow_pos : (k : ℕ) → 0 < 2 ^ k
two_pow_pos k = one-le-pow k 2 (omega arith)

pred_mul : (p q : ℕ) → 0 < p → (p - 1) * q ≡ p * q - q
pred_mul zero q h = absurd (omega arith)
pred_mul (suc p) q h = let e : suc p - 1 ≡ p = omega arith in rw e (grind (arith, suc-mul p q))

-- `x & ~(2 ^ k - 1)` rounds a word down to a multiple of `2 ^ k`.
module _ (m k : ℕ) (split : 2 ^ m * 2 ^ k ≡ 2 ^ 64) where
  high_mask : not64 (2 ^ k - 1) ≡ (2 ^ m - 1) * 2 ^ k
  high_mask = omega (arith, two_pow_pos k, pred_mul (2 ^ m) (2 ^ k) (two_pow_pos m), split)

  pub bit_and_high : (x : ℕ) → x < 2 ^ 64 → bit_and x (not64 (2 ^ k - 1)) ≡ x / 2 ^ k * 2 ^ k
  bit_and_high x h =
      let small : x / 2 ^ k < 2 ^ m =
        (div-lt_iff_lt-mul (two_pow_pos k)).1 (omega (arith, split)) in
      ap (bit_and x) high_mask
      ∙ bit_and_shifted k x (2 ^ m - 1)
      ∙ ap (λ (t : ℕ). t * 2 ^ k) (bit_and_mask m (x / 2 ^ k) ∙ mod-eq_of_lt small)

-- Rounding down to a 4 KiB page.
pub bit_and_page : (x : ℕ) → x < 2 ^ 64 → bit_and x (not64 (0x1000 - 1)) ≡ x / 0x1000 * 0x1000
bit_and_page = bit_and_high 52 12 refl

pub bit_and_page_offset : (x : ℕ) → bit_and x (0x1000 - 1) ≡ x % 0x1000
bit_and_page_offset = bit_and_mask 12

pub bit_and_page32 : (x : ℕ) → x < 2 ^ 32 → bit_and x (not32 (0x1000 - 1)) ≡ x / 0x1000 * 0x1000
bit_and_page32 x h =
    bit_and_shifted 12 x (2 ^ 20 - 1)
    ∙ ap (λ (t : ℕ). t * 0x1000) (bit_and_mask 20 (x / 0x1000) ∙ mod-eq_of_lt (omega arith))
