-- ===== src/Collections/LinkedList/Dangling.antt =====
-- LinkedList::remove (include/tachyon.collections/LinkedList.h) on two neighbours that both equal the
-- item.
use tachyon.Base.{
  ℕ, zero, suc, ◌≡◌, refl, ap, ◌∙◌, Bool, true, false, [], ◌∷◌, arith, ◌==◌, Outcome, ok,
}
use tachyon.Collections.LinkedList.{
  LinkedList, size, relink, delete_node, unlink, remove_loop, remove,
}
use tachyon.Collections.LinkedList.Chains.{put_here, Represents}
use tachyon.Collections.LinkedList.Remove.{hits, loop_hit}

-- The list counts no item, but its head is a node that is deleted.
pub record Dangling {ℓ} {A : Type ℓ} (b : ℕ) (r : Outcome (LinkedList A)) : Type ℓ where
  pub l' : LinkedList A
  pub returns : r ≡ ok l'
  pub empty : size l' ≡ 0
  pub head_left : l'.head ≡ b
  pub dead : l'.live b ≡ false

module _ {ℓ} {A : Type ℓ} (eq : A → A → Bool) (item : A) (fuel : ℕ) (l : LinkedList A) (a b : ℕ)
    (r : Represents l (a ∷ b ∷ [])) (hit_a : hits eq item l a ≡ true)
    (hit_b : hits eq item l b ≡ true) where
  abbrev l1 : LinkedList A
  l1 = unlink 0 a l

  abbrev l2 : LinkedList A
  l2 = unlink a b l1

  not_null : (a == 0) ≡ false
  not_null = ground (arith, r.chain.1)

  -- The first node is unlinked and deleted, and then taken for the predecessor of the second one.
  runs : remove eq (suc (suc fuel)) item l ≡ ok l2
  unfolding remove unlink relink delete_node
  runs =
      ap (λ (t : ℕ). remove_loop eq (suc (suc fuel)) 0 t item l) r.chain.0
      ∙ loop_hit eq item (suc fuel) l 0 a r.chain.1 hit_a
      ∙ ap (λ (t : ℕ). remove_loop eq (suc fuel) a t item l1) r.chain.2.0
      ∙ loop_hit eq item fuel l1 a b r.chain.2.1 hit_b
      ∙ ends fuel l2 b (rw (not_null, other) r.chain.2.2)
    where
      other : (b == a) ≡ false
      other = ground (arith, r.distinct.0.0)

      ends :
          (n : ℕ) (l' : LinkedList A) (q : ℕ)
          → l'.next q ≡ 0
          → remove_loop eq n q (l'.next q) item l' ≡ ok l'
      ends zero l' q stop = unfold remove_loop in rw stop refl
      ends (suc n) l' q stop = unfold remove_loop in rw stop refl

  -- On a list of two nodes that both equal the item, remove returns a list of size 0 whose head is
  -- the second node, which is deleted.
  pub remove-Dangling : Dangling b (remove eq (suc (suc fuel)) item l)
  unfolding unlink relink delete_node size
  remove-Dangling = record {
    l' = l2;
    returns = runs;
    empty = omega (arith, r.counted);
    head_left = rw not_null r.chain.2.0;
    dead = put_here b false l1.live;
  }
