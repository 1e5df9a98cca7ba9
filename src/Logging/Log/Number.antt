-- ===== src/Logging/Log/Number.antt =====
-- parse_u and parse_num (core/tachyon.logging/Log.cc): the text of a number.
use mathlib.Core.Path.{subst}
use native.Mathlib.Nat.{pow-zero, pow-suc, div-lt_iff_lt-mul}
use tachyon.Base.{
  ℕ, zero, suc, ◌+◌, ◌-◌, ◌*◌, ◌/◌, ◌%◌, ◌^◌, ◌≤◌, ◌<◌, ◌≡◌, refl, ap, ◌∙◌, ◌≢◌, ◌⊎◌, inl, inr,
  true, false, List, [], ◌∷◌, ◌++◌, arith, leb, ◌==◌, leb→le, ==_iff, Bool-cases, length, replicate,
  All, length-append, length-replicate, ok, >>=-eq-ok,
}
use tachyon.Base.Bits.{word}
use tachyon.Logging.Log.{
  digit_char, digits_loop, reverse_onto, reverse, fill_up, parse_u, parse_num_from, parse_num,
  is_digit,
}

-- The loop with as many rounds as the number has digits.
pub record Rounds (base k fuel num : ℕ) : Type 0 where
  pub ds : List ℕ
  pub returns : digits_loop fuel num base ≡ ok ds
  pub some_digit : 0 < length ds
  pub at_most : length ds ≤ k

pub digits_loop-Rounds :
    (base k fuel num : ℕ) → 0 < base → num < base ^ k → 0 < k → k ≤ fuel → Rounds base k fuel num
unfolding digits_loop
digits_loop-Rounds base zero fuel num pos fits some_k enough = absurd (omega arith)
digits_loop-Rounds base (suc k) zero num pos fits some_k enough = absurd (omega arith)
digits_loop-Rounds base (suc k) (suc fuel) num pos fits some_k enough =
    let less : num / base < base ^ k = (div-lt_iff_lt-mul pos).1 (omega (arith, pow-suc base k)) in
    elim (Bool-cases (num / base == 0)) [
      | inl h ↦ record {
        ds = digit_char (num % base) ∷ [];
        returns = rw h;
        some_digit = omega arith;
        at_most = omega arith;
      }
      | inr h ↦
          let rest =
            digits_loop-Rounds base k fuel (num / base) pos less (more k less h) (omega arith) in
          record {
            ds = digit_char (num % base) ∷ rest.ds;
            returns = rw (h, rest.returns);
            some_digit = omega arith;
            at_most = omega (arith, rest.at_most);
          }
    ]
  where
    more : (j : ℕ) → num / base < base ^ j → (num / base == 0) ≡ false → 0 < j
    more zero less h = absurd (ground (arith, pow-zero base))
    more (suc j) less h = omega arith

-- The number that decimal digits stand for, lowest first.
unfoldable pub value : List ℕ → ℕ
value [] = 0
value (d ∷ ds) = (d - 48) + 10 * value ds

abbrev IsDigit : ℕ → Type 0
IsDigit c = (48 ≤ c) × (c ≤ 57)

value-digits_loop :
    (fuel num : ℕ) {ds : List ℕ}
    → digits_loop fuel num 10 ≡ ok ds
    → (value ds ≡ num) × All IsDigit ds
unfolding digits_loop value
value-digits_loop zero num h = absurd cc
value-digits_loop (suc fuel) num {ds} h = elim (Bool-cases (num / 10 == 0)) [
  | inl z ↦
      let e : ok (digit_char (num % 10) ∷ []) ≡ ok ds = rw z at h in
      let e' : digit_char (num % 10) ∷ [] ≡ ds = ground arith in
      subst (λ t. (value t ≡ num) × All IsDigit t) e'
        (ground arith, ((ground arith, ground arith), tt))
  | inr z ↦
      let (rest, returned, h1) = >>=-eq-ok (digits_loop fuel (num / 10) 10) _ (rw z at h) in
      let (total, digits) = value-digits_loop fuel (num / 10) returned in
      let e' : digit_char (num % 10) ∷ rest ≡ ds = ground arith in
      subst (λ t. (value t ≡ num) × All IsDigit t) e'
        (ground arith, ((ground arith, ground arith), digits))
]

value-zeros : (ds : List ℕ) (k : ℕ) → value (ds ++ replicate k 48) ≡ value ds
unfolding value
value-zeros [] zero = refl
value-zeros [] (suc k) = omega (arith, value-zeros [] k)
value-zeros (d ∷ ds) k = omega (arith, value-zeros ds k)

digits-zeros : (ds : List ℕ) (k : ℕ) → All IsDigit ds → All IsDigit (ds ++ replicate k 48)
digits-zeros [] zero h = tt
digits-zeros [] (suc k) h = ((omega arith, omega arith), digits-zeros [] k tt)
digits-zeros (d ∷ ds) k h = (h.0, digits-zeros ds k h.1)

-- Reading the digits from the highest on.
parse_num_from-reverse_onto :
    (ds acc : List ℕ)
    → All IsDigit ds
    → value ds < 2 ^ 64
    → parse_num_from 0 (reverse_onto ds acc) ≡ parse_num_from (value ds) acc
unfolding value
parse_num_from-reverse_onto [] acc digits fits = refl
parse_num_from-reverse_onto (d ∷ ds) acc digits fits =
    parse_num_from-reverse_onto ds (d ∷ acc) digits.1 (omega arith) ∙ step
  where
    step : parse_num_from (value ds) (d ∷ acc) ≡ parse_num_from ((d - 48) + 10 * value ds) acc
    step =
        let digit : is_digit d ≡ true = ground (arith, digits.0) in
        let next : (value ds * 10 + (d - 48)) % word ≡ (d - 48) + 10 * value ds = omega arith in
        unfold parse_num_from in rw (digit, next)

-- What parse_u makes of a number below `base ^ k`.
pub record Written (base k num fill width : ℕ) : Type 0 where
  pub text : List ℕ
  pub returns : parse_u num base fill width ≡ ok text
  pub some_digit : 0 < length text
  pub wide : (fill ≢ 0) → width ≤ length text
  pub at_most : (length text ≤ k) ⊎ (length text ≤ width)

length-reverse_onto : (xs acc : List ℕ) → length (reverse_onto xs acc) ≡ length xs + length acc
length-reverse_onto [] acc = omega arith
length-reverse_onto (x ∷ xs) acc = omega (arith, length-reverse_onto xs (x ∷ acc))

length-fill_up :
    (fill width : ℕ) (ds : List ℕ)
    → ((fill ≡ 0) × (length (fill_up fill width ds) ≡ length ds))
      ⊎ ((fill ≢ 0) × (length (fill_up fill width ds) ≡ length ds + (width - length ds)))
unfolding fill_up
length-fill_up fill width ds = elim (Bool-cases (fill == 0)) [
  | inl h ↦ inl ((==_iff fill 0).0 h, rw h)
  | inr h ↦ inr (
    ground arith,
    rw h (
        length-append ds (replicate (width - length ds) fill)
        ∙ ap (λ (t : ℕ). length ds + t) (length-replicate (width - length ds) fill)),
  )
]

-- parse_u returns for each number below `base ^ k`, with k up to 64: the text has a digit, reaches the
-- width if there is a character to fill with, and is no longer than k digits or the width.
pub parse_u-Written :
    (base k num fill width : ℕ)
    → 0 < base
    → num < base ^ k
    → 0 < k
    → k ≤ 64
    → Written base k num fill width
parse_u-Written base k num fill width pos fits some_k enough =
    let loop = digits_loop-Rounds base k 64 num pos fits some_k enough in
    let size = length-reverse_onto (fill_up fill width loop.ds) [] in
    let filled = length-fill_up fill width loop.ds in
    record {
      text = reverse (fill_up fill width loop.ds);
      returns = unfold parse_u in rw loop.returns;
      some_digit = elim filled [
        | inl (no_char, same_size) ↦ omega (arith, loop.some_digit, size)
        | inr (char, more) ↦ omega (arith, loop.some_digit, size)
      ];
      wide = λ char. elim filled [
        | inl (no_char, same_size) ↦ absurd (char no_char)
        | inr (char', more) ↦ omega (arith, size)
      ];
      at_most = elim filled [
        | inl (no_char, same_size) ↦ inl (omega (arith, loop.at_most, size))
        | inr (char, more) ↦ elim (Bool-cases (leb width (length loop.ds))) [
          | inl h ↦ inl (let below = leb→le _ _ h in omega (arith, loop.at_most, size))
          | inr h ↦ inr (let above : length loop.ds ≤ width = ground arith in omega (arith, size))
        ]
      ];
    }

-- parse_num reads back a word that parse_u has written in base ten, filled up with zeros or not.
pub parse_num-parse_u :
    (num fill width : ℕ)
    → num < 2 ^ 64
    → (fill ≡ 0) ⊎ (fill ≡ 48)
    → (text : List ℕ) × (parse_u num 10 fill width ≡ ok text) × (parse_num text ≡ num)
unfolding parse_u parse_num
parse_num-parse_u num fill width word zeros =
    let loop =
      digits_loop-Rounds 10 20 64 num (omega arith) (omega arith) (omega arith) (omega arith) in
    let (total, digits) = value-digits_loop 64 num loop.returns in
    let (same_value, all_digits) = filled loop.ds digits zeros in
    (
      reverse (fill_up fill width loop.ds),
      rw loop.returns,
      parse_num_from-reverse_onto (fill_up fill width loop.ds) [] all_digits (omega arith)
          ∙ unfold parse_num_from in same_value ∙ total,
    )
  where
    filled :
        (ds : List ℕ)
        → All IsDigit ds
        → (fill ≡ 0) ⊎ (fill ≡ 48)
        → (value (fill_up fill width ds) ≡ value ds) × All IsDigit (fill_up fill width ds)
    filled ds digits (inl e) = rw e (unfold fill_up in (refl, digits))
    filled ds digits (inr e) = rw e (
        unfold fill_up in
        (value-zeros ds (width - length ds), digits-zeros ds (width - length ds) digits))
