-- ===== src/Collections/LinkedList/Clear.antt =====
-- LinkedList::clear (include/tachyon.collections/LinkedList.h) on lists whose items are all different.
use mathlib.Core.Path.{subst}
use tachyon.Base.{
  ℕ, zero, suc, ◌≤◌, ◌≡◌, refl, sym, ap, ◌∙◌, Bool, true, false, List, [], ◌∷◌, arith, ◌==◌, length,
  All, Outcome, ok, ◌>>=◌,
}
use tachyon.Collections.LinkedList.{LinkedList, remove, clear}
use tachyon.Collections.LinkedList.Chains.{NotIn, Represents}
use tachyon.Collections.LinkedList.Remove.{kept, Apart, hits}
use tachyon.Collections.LinkedList.Sweep.{Removed, remove-Removed}

module _ {ℓ} {A : Type ℓ} (eq : A → A → Bool) where
  -- Each item equals itself and no later one.
  abbrev pub Differ : (ℕ → A) → List ℕ → Type 0
  Differ payload [] = Unit
  Differ payload (a ∷ ns) =
      (eq (payload a) (payload a) ≡ true)
      × All (λ b. eq (payload b) (payload a) ≡ false) ns
      × Differ payload ns

  module _ (hit : ℕ → Bool) where
    kept_whole : (ns : List ℕ) → All (λ b. hit b ≡ false) ns → kept hit ns ≡ ns
    unfolding kept
    kept_whole [] miss = refl
    kept_whole (b ∷ ns) miss = rw miss.0 (ap (◌∷◌ b) (kept_whole ns miss.1))

    kept_tail :
        (a : ℕ) (ns : List ℕ) → hit a ≡ true → All (λ b. hit b ≡ false) ns → kept hit (a ∷ ns) ≡ ns
    unfolding kept
    kept_tail a ns is_hit miss = rw is_hit (kept_whole ns miss)

    no_neighbours : (ns : List ℕ) → All (λ b. hit b ≡ false) ns → Apart hit ns
    no_neighbours [] miss = tt
    no_neighbours (b ∷ []) miss = tt
    no_neighbours (b ∷ c ∷ ns) miss = (ground (arith, miss.0), no_neighbours (c ∷ ns) miss.1)

    one_hit : (a : ℕ) (ns : List ℕ) → All (λ b. hit b ≡ false) ns → Apart hit (a ∷ ns)
    one_hit a [] miss = tt
    one_hit a (b ∷ ns) miss = (ground (arith, miss.0), no_neighbours (b ∷ ns) miss)

  -- A list that is empty, with its nodes deleted.
  pub record Emptied (ns : List ℕ) (r : Outcome (LinkedList A)) : Type ℓ where
    pub l' : LinkedList A
    pub returns : r ≡ ok l'
    pub represents : Represents l' []
    pub deleted : All (λ a. l'.live a ≡ false) ns

  pub record Emptying (fuel : ℕ) (l : LinkedList A) (ns : List ℕ) : Type ℓ where
    pub emptied : Emptied ns (clear eq fuel l)
    pub others : (x : ℕ) → NotIn x ns → emptied.l'.live x ≡ l.live x

  clear_none : (fuel : ℕ) (l : LinkedList A) → Represents l [] → Emptying fuel l []
  unfolding clear
  clear_none zero l r = record {
    emptied = record { l' = l; returns = rw r.chain refl; represents = r; deleted = tt };
    others = λ x outside. refl;
  }
  clear_none (suc fuel) l r = record {
    emptied = record { l' = l; returns = rw r.chain refl; represents = r; deleted = tt };
    others = λ x outside. refl;
  }

  module _ (fuel : ℕ) (l : LinkedList A) (a : ℕ) (ns : List ℕ) (r : Represents l (a ∷ ns))
      (differ : Differ l.payload (a ∷ ns)) (enough : length ns ≤ fuel) where
    removed : Removed eq (l.payload a) (suc fuel) l (a ∷ ns)
    removed =
        remove-Removed eq (l.payload a) (suc fuel) l (a ∷ ns) r
          (one_hit (hits eq (l.payload a) l) a ns differ.1) (omega arith)

    tail_left : Represents removed.l' ns
    tail_left =
        subst (Represents removed.l') (kept_tail (hits eq (l.payload a) l) a ns differ.0 differ.1)
          removed.represents

    tail_differs : Differ removed.l'.payload ns
    tail_differs =
        subst (λ (payload : ℕ → A). Differ payload ns) (sym removed.same_payload) differ.2

    clear_more : Emptying fuel removed.l' ns → Emptying (suc fuel) l (a ∷ ns)
    unfolding clear
    clear_more rest =
        let nonzero : (l.head == 0) ≡ false = ground (arith, r.chain.0, r.chain.1) in
        let dead : removed.l'.live a ≡ false = removed.deleted.0 ∙ rw differ.0 refl in
        record {
          emptied = record {
            l' = rest.emptied.l';
            returns = rw nonzero (
                ap (λ (t : ℕ). remove eq (suc fuel) (l.payload t) l >>= clear eq fuel) r.chain.0
                ∙ rw removed.returns rest.emptied.returns);
            represents = rest.emptied.represents;
            deleted = (rest.others a r.distinct.0 ∙ dead, rest.emptied.deleted);
          };
          others = λ x outside. rest.others x outside.1 ∙ removed.others x outside;
        }

  empties :
      (fuel : ℕ) (l : LinkedList A) (ns : List ℕ)
      → Represents l ns
      → Differ l.payload ns
      → length ns ≤ fuel
      → Emptying fuel l ns
  empties fuel l [] r differ enough = clear_none fuel l r
  empties zero l (a ∷ ns) r differ enough = absurd (omega arith)
  empties (suc fuel) l (a ∷ ns) r differ enough = clear_more fuel l a ns r differ (omega arith) (
      empties fuel (removed fuel l a ns r differ (omega arith)).l' ns
        (tail_left fuel l a ns r differ (omega arith))
        (tail_differs fuel l a ns r differ (omega arith)) (omega arith))

  -- On a list whose items are all different, clear returns, in as many rounds as there are nodes: the
  -- list is empty, and all its nodes are deleted.
  pub clear-Emptied :
      (fuel : ℕ) (l : LinkedList A) (ns : List ℕ)
      → Represents l ns
      → Differ l.payload ns
      → length ns ≤ fuel
      → Emptied ns (clear eq fuel l)
  clear-Emptied fuel l ns r differ enough = (empties fuel l ns r differ enough).emptied
