-- ===== src/Collections/LinkedList/Chains.antt =====
-- The nodes of a LinkedList (include/tachyon.collections/LinkedList.h) as a chain of addresses, and
-- add and the iterator on it.
use tachyon.Base.{
  ℕ, zero, suc, ◌^◌, ◌≤◌, ◌<◌, ◌≡◌, refl, sym, ◌∙◌, ◌≢◌, true, false, List, [], ◌∷◌, map, arith,
  ◌==◌, length, All, ok,
}
use tachyon.Collections.LinkedList.{LinkedList, put, make_empty, size, add, traverse, iterator}

abbrev pub NotIn : ℕ → List ℕ → Type 0
NotIn x ns = All (λ a. x ≢ a) ns

abbrev pub Distinct : List ℕ → Type 0
Distinct [] = Unit
Distinct (a ∷ ns) = NotIn a ns × Distinct ns

-- The addresses that the next pointers run through from `p` on.
abbrev pub Chain : (ℕ → ℕ) → ℕ → List ℕ → Type 0
Chain next p [] = p ≡ 0
Chain next p (a ∷ ns) = (p ≡ a) × (a ≢ 0) × Chain next (next a) ns

pub Chain-NotIn : (next : ℕ → ℕ) (p : ℕ) (ns : List ℕ) → Chain next p ns → NotIn 0 ns
Chain-NotIn next p [] chain = tt
Chain-NotIn next p (a ∷ ns) chain = (λ e. chain.1 (sym e), Chain-NotIn next (next a) ns chain.2)

pub Chain-ext :
    (next next' : ℕ → ℕ) (p p' : ℕ) (ns : List ℕ)
    → p' ≡ p
    → All (λ a. next' a ≡ next a) ns
    → Chain next p ns
    → Chain next' p' ns
Chain-ext next next' p p' [] e agree chain = e ∙ chain
Chain-ext next next' p p' (a ∷ ns) e agree chain =
    (e ∙ chain.0, chain.1, Chain-ext next next' (next a) (next' a) ns agree.0 agree.1 chain.2)

pub All-map {κ ρ} :
    {P : ℕ → Type κ} {Q : ℕ → Type ρ} → ((a : ℕ) → P a → Q a) → (ns : List ℕ) → All P ns → All Q ns
All-map f [] h = tt
All-map f (a ∷ ns) h = (f a h.0, All-map f ns h.1)

pub put_there {ℓ} : {B : Type ℓ} (a : ℕ) (v : B) (f : ℕ → B) (x : ℕ) → a ≢ x → put a v f x ≡ f x
put_there a v f x other = let e : (x == a) ≡ false = ground (arith, other) in rw e

pub put_here {ℓ} : {B : Type ℓ} (a : ℕ) (v : B) (f : ℕ → B) → put a v f a ≡ v
put_here a v f = let e : (a == a) ≡ true = ground arith in rw e

module _ {ℓ} {A : Type ℓ} where
  -- The list consists of the nodes at these addresses, in this order.
  pub record Represents (l : LinkedList A) (ns : List ℕ) : Type ℓ where
    pub chain : Chain l.next l.head ns
    pub distinct : Distinct ns
    pub alive : All (λ a. l.live a ≡ true) ns
    pub counted : size l ≡ length ns
    pub bounded : length ns < 2 ^ 64

  pub make_empty-Represents : (l : LinkedList A) → Represents (make_empty l) []
  unfolding make_empty size
  make_empty-Represents l = record {
    chain = refl;
    distinct = tt;
    alive = tt;
    counted = refl;
    bounded = omega arith;
  }

  pub add-Represents :
      (l : LinkedList A) (ns : List ℕ) (node : ℕ) (item : A)
      → Represents l ns
      → node ≢ 0
      → NotIn node ns
      → suc (length ns) < 2 ^ 64
      → Represents (add node item l) (node ∷ ns)
  unfolding add size
  add-Represents l ns node item r some_node fresh bound = record {
    chain = (
      refl,
      some_node,
      Chain-ext l.next (put node l.head l.next) l.head (put node l.head l.next node) ns
          (put_here node l.head l.next)
          (All-map (λ a differ. put_there node l.head l.next a differ) ns fresh) r.chain,
    );
    distinct = (fresh, r.distinct);
    alive = (put_here node true l.live, still_alive ns fresh r.alive);
    counted = omega (arith, r.counted, r.bounded, bound);
    bounded = bound;
  }
    where
      still_alive :
          (bs : List ℕ)
          → NotIn node bs
          → All (λ a. l.live a ≡ true) bs
          → All (λ a. put node true l.live a ≡ true) bs
      still_alive [] f h = tt
      still_alive (b ∷ bs) f h = (put_there node true l.live b f.0 ∙ h.0, still_alive bs f.1 h.1)

  traverse-Chain :
      (l : LinkedList A) (ns : List ℕ) (p fuel : ℕ)
      → Chain l.next p ns
      → length ns ≤ fuel
      → traverse fuel p l ≡ ok (map l.payload ns)
  unfolding traverse
  traverse-Chain l [] p zero chain enough = rw chain refl
  traverse-Chain l [] p (suc fuel) chain enough = rw chain refl
  traverse-Chain l (a ∷ ns) p zero chain enough = absurd (omega arith)
  traverse-Chain l (a ∷ ns) p (suc fuel) chain enough =
      let some_node : (a == 0) ≡ false = ground (arith, chain.1) in
      rw (chain.0, some_node, traverse-Chain l ns (l.next a) fuel chain.2 (omega arith)) refl

  -- The iterator passes the payloads of the nodes in order, in ns many rounds ns there are nodes.
  pub traverse-Represents :
      (l : LinkedList A) (ns : List ℕ) (fuel : ℕ)
      → Represents l ns
      → length ns ≤ fuel
      → traverse fuel (iterator l) l ≡ ok (map l.payload ns)
  traverse-Represents l ns fuel r enough = traverse-Chain l ns l.head fuel r.chain enough
