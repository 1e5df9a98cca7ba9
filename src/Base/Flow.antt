-- ===== src/Base/Flow.antt =====
-- How a kernel routine ends: it returns, it stops the kernel through KFATAL (abort), it writes behind
-- the end of one of its arrays, so that no result is defined, or the rounds granted to one of its loops
-- run out.
use mathlib.Core.Path.{◌≡◌, refl, subst}
use mathlib.Core.Bool.{Bool, true, false}

pub data Outcome {ℓ} (A : Type ℓ) : Type ℓ where
  ok : A → Outcome A
  fatal : Outcome A
  overrun : Outcome A
  out_of_fuel : Outcome A

-- KASSERT(x): a condition that does not hold stops the kernel.
abbrev pub kassert : Bool → Outcome (Unit {0})
kassert holds = elim holds [ false ↦ fatal | true ↦ ok tt ]

module _ {ℓ κ} {A : Type ℓ} {B : Type κ} where
  infixl 5 ◌>>=◌
  abbrev pub ◌>>=◌ : Outcome A → (A → Outcome B) → Outcome B
  out_of_fuel >>= next = out_of_fuel
  fatal >>= next = fatal
  overrun >>= next = overrun
  ok result >>= next = next result

module _ {κ} {B : Type κ} where
  infixl 5 ◌>>◌
  abbrev pub ◌>>◌ : Outcome (Unit {0}) → Outcome B → Outcome B
  first >> second = first >>= λ unit. second

-- Inversion of a chain that returned.
module _ {ℓ κ} {A : Type ℓ} {B : Type κ} where
  pub >>=-eq-ok :
      (start : Outcome A) (next : A → Outcome B) {last : B}
      → (start >>= next) ≡ ok last
      → (middle : A) × (start ≡ ok middle) × (next middle ≡ ok last)
  >>=-eq-ok out_of_fuel next returned = cc
  >>=-eq-ok fatal next returned = cc
  >>=-eq-ok overrun next returned = cc
  >>=-eq-ok (ok middle) next returned = (middle, refl, returned)

-- A property of the result, where there is one.
module _ {ℓ κ} {A : Type ℓ} (P : A → Type κ) where
  abbrev pub Returns : Outcome A → Type κ
  Returns (ok a) = P a
  Returns fatal = Unit
  Returns overrun = Unit
  Returns out_of_fuel = Unit

  pub Returns-ok : (o : Outcome A) (a : A) → Returns o → o ≡ ok a → P a
  Returns-ok o a holds returned = subst Returns returned holds

  pub Returns->>= {ρ} :
      {B : Type ρ} (start : Outcome B) (next : B → Outcome A)
      → ((b : B) → Returns (next b))
      → Returns (start >>= next)
  Returns->>= (ok b) next holds = holds b
  Returns->>= fatal next holds = tt
  Returns->>= overrun next holds = tt
  Returns->>= out_of_fuel next holds = tt

  pub Returns-kassert :
      (holds : Bool) (next : Outcome A)
      → (holds ≡ true → Returns next)
      → Returns (kassert holds >> next)
  Returns-kassert true next then_holds = then_holds refl
  Returns-kassert false next then_holds = tt

pub Returns-then {ℓ κ ρ σ} :
    {A : Type ℓ} {B : Type ρ} (Q : B → Type σ) (P : A → Type κ) (start : Outcome B)
    (next : B → Outcome A)
    → Returns Q start
    → ((b : B) → Q b → Returns P (next b))
    → Returns P (start >>= next)
Returns-then Q P (ok b) next here holds = holds b here
Returns-then Q P fatal next here holds = tt
Returns-then Q P overrun next here holds = tt
Returns-then Q P out_of_fuel next here holds = tt
