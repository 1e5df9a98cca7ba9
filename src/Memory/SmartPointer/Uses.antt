-- ===== src/Memory/SmartPointer/Uses.antt =====
-- How many smart pointers (include/tachyon.memory/SmartPointer.h) share a counter.
use tachyon.Base.{
  ℕ, zero, suc, ◌+◌, ◌≤◌, ◌<◌, ◌≡◌, refl, sym, ap, ◌∙◌, ◌≢◌, ◌⊎◌, inl, inr, true, false, Option,
  none, some, List, [], ◌∷◌, arith, ◌==◌, if◌then◌else◌, ==_iff, Bool-cases, length, get_or, set,
  get_or-set,
}
use tachyon.Memory.SmartPointer.{SmartPointer}

abbrev pub one : ℕ → Option SmartPointer → ℕ
one c none = 0
one c (some p) = if p.cnt == c then 1 else 0

unfoldable pub uses : ℕ → List (Option SmartPointer) → ℕ
uses c [] = 0
uses c (o ∷ os) = one c o + uses c os

pub uses-set :
    (c : ℕ) (os : List (Option SmartPointer)) (i : ℕ) (v : Option SmartPointer)
    → i < length os
    → uses c (set os i v) + one c (get_or os i none) ≡ uses c os + one c v
unfolding uses
uses-set c [] i v inside = absurd (omega arith)
uses-set c (o ∷ os) zero v inside = omega arith
uses-set c (o ∷ os) (suc i) v inside = omega (arith, uses-set c os i v (omega arith))

one_le : (c : ℕ) (o : Option SmartPointer) → one c o ≤ 1
one_le c none = omega arith
one_le c (some p) = ground arith

pub uses_le : (c : ℕ) (os : List (Option SmartPointer)) → uses c os ≤ length os
unfolding uses
uses_le c [] = omega arith
uses_le c (o ∷ os) = omega (arith, one_le c o, uses_le c os)

pub uses_pos :
    (os : List (Option SmartPointer)) (i : ℕ) (p : SmartPointer)
    → get_or os i none ≡ some p
    → 0 < uses p.cnt os
unfolding uses
uses_pos [] i p here = cc
uses_pos (o ∷ os) zero p here =
    let self : (p.cnt == p.cnt) ≡ true = ground arith in rw (here, self) (omega arith)
uses_pos (o ∷ os) (suc i) p here = omega (arith, uses_pos os i p here)

pub uses_zero :
    (c : ℕ) (os : List (Option SmartPointer))
    → ((i : ℕ) (p : SmartPointer) → get_or os i none ≡ some p → p.cnt ≢ c)
    → uses c os ≡ 0
unfolding uses
uses_zero c [] other = refl
uses_zero c (none ∷ os) other = omega (arith, uses_zero c os (λ i. other (suc i)))
uses_zero c (some p ∷ os) other =
    let differ : (p.cnt == c) ≡ false = ground (arith, other 0 p refl) in
    rw differ (omega (arith, uses_zero c os (λ i. other (suc i))))

pub below_length :
    (os : List (Option SmartPointer)) (i : ℕ) (p : SmartPointer)
    → get_or os i none ≡ some p
    → i < length os
below_length [] i p here = cc
below_length (o ∷ os) zero p here = omega arith
below_length (o ∷ os) (suc i) p here = omega (arith, below_length os i p here)

pub set-set :
    (os : List (Option SmartPointer)) (i : ℕ) (v w : Option SmartPointer)
    → set (set os i v) i w ≡ set os i w
set-set [] i v w = refl
set-set (o ∷ os) zero v w = refl
set-set (o ∷ os) (suc i) v w = ap (◌∷◌ o) (set-set os i v w)

-- The slots after a write.
pub slot_set :
    (os : List (Option SmartPointer)) (i j : ℕ) (v : Option SmartPointer) (p : SmartPointer)
    → i < length os
    → get_or (set os i v) j none ≡ some p
    → ((i ≡ j) × (v ≡ some p)) ⊎ ((i ≢ j) × (get_or os j none ≡ some p))
slot_set os i j v p inside here = elim (Bool-cases (i == j)) [
  | inl e ↦ inl ((==_iff i j).0 e, sym (written ∙ rw e refl) ∙ here)
  | inr e ↦ inr (ground arith, sym (written ∙ rw e refl) ∙ here)
]
  where
    written : get_or (set os i v) j none ≡ (if i == j then v else get_or os j none)
    written = get_or-set os i j v none inside
