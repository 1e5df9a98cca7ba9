-- ===== src/Collections/LinkedList/Sweep.antt =====
-- The whole loop of LinkedList::remove (include/tachyon.collections/LinkedList.h).
use tachyon.Base.{
  ℕ, zero, suc, ◌≤◌, ◌≡◌, refl, ap, ◌∙◌, ◌≢◌, inl, inr, Bool, true, false, not, List, [], ◌∷◌,
  arith, ◌==◌, Bool-cases, length, All, ok,
}
use tachyon.Collections.LinkedList.{
  LinkedList, size, relink, delete_node, unlink, remove_loop, remove,
}
use tachyon.Collections.LinkedList.Chains.{
  NotIn, Chain, Chain-NotIn, Chain-ext, All-map, put_there, Represents,
}
use tachyon.Collections.LinkedList.Remove.{
  kept, Apart, Apart-tail, length-kept, kept-Distinct, link_next, link-unlink_here, nothing-Swept,
  Swept-miss, Swept-hit, hits, Sweep, Sweep-end, loop_miss, loop_hit, Ready, Ready-next,
}

module _ {ℓ} {A : Type ℓ} where
  next-unlink : (l : LinkedList A) (q a x : ℕ) → q ≢ x → (unlink q a l).next x ≡ l.next x
  unfolding unlink relink delete_node
  next-unlink l q a x differ = elim (Bool-cases (q == 0)) [
    | inl e ↦ rw e
    | inr e ↦ rw e (put_there q (l.next a) l.next x differ)
  ]

  Chain-unlink :
      (l : LinkedList A) (q a b : ℕ) (ns : List ℕ)
      → NotIn q (b ∷ ns)
      → Chain l.next (l.next b) ns
      → Chain (unlink q a l).next ((unlink q a l).next b) ns
  Chain-unlink l q a b ns out chain =
      Chain-ext l.next (unlink q a l).next (l.next b) ((unlink q a l).next b) ns
        (next-unlink l q a b out.0) (All-map (λ x differ. next-unlink l q a x differ) ns out.1)
        chain

  alive-unlink :
      (l : LinkedList A) (q a : ℕ) (ns : List ℕ)
      → NotIn a ns
      → All (λ x. l.live x ≡ true) ns
      → All (λ x. (unlink q a l).live x ≡ true) ns
  unfolding unlink relink delete_node
  alive-unlink l q a [] out alive = tt
  alive-unlink l q a (b ∷ ns) out alive =
      (put_there a false l.live b out.0 ∙ alive.0, alive-unlink l q a ns out.1 alive.1)

  module _ (eq : A → A → Bool) (item : A) where
    -- Behind a node that was unlinked, and past the node `b` that stays.
    Ready-unlink :
        (l : LinkedList A) (q p a b : ℕ) (ns : List ℕ)
        → Ready eq item l q p (a ∷ b ∷ ns)
        → Ready eq item (unlink q a l) b ((unlink q a l).next b) ns
    unfolding unlink
    Ready-unlink l q p a b ns r = record {
      points = link_next (unlink q a l) b r.chain.2.1;
      chain = Chain-unlink l q a b ns r.outside.1 r.chain.2.2;
      outside = r.distinct.1.0;
      distinct = r.distinct.1.1;
      alive = alive-unlink l q a ns r.distinct.0.1 r.alive.1.1;
      apart = unfold relink delete_node in Apart-tail (hits eq item l) b ns r.apart.1;
      enough = unfold relink delete_node in omega (arith, r.enough, r.word);
      word = unfold relink delete_node in omega (arith, r.enough, r.word);
    }

    module _ (l : LinkedList A) (q p a : ℕ) where
      swept_last :
          (fuel : ℕ)
          → Ready eq item l q p (a ∷ [])
          → hits eq item l a ≡ true
          → Sweep eq item (suc fuel) l q p (a ∷ [])
      swept_last fuel r is_hit =
          let stop : (unlink q a l).next a ≡ 0 = next-unlink l q a a r.outside.0 ∙ r.chain.2 in
          record {
            l' = unlink q a l;
            returns =
                rw r.chain.0 (loop_hit eq item fuel l q a r.chain.1 is_hit ∙ loop_end fuel stop);
            swept =
                Swept-hit (hits eq item l) l (unlink q a l) q a [] is_hit tt
                  (omega (arith, r.enough)) r.word
                  (nothing-Swept (hits eq item l) (unlink q a l) q
                    (link-unlink_here l q a ∙ r.chain.2));
          }
        where
          loop_end :
              (fuel : ℕ)
              → (unlink q a l).next a ≡ 0
              → remove_loop eq fuel a ((unlink q a l).next a) item (unlink q a l)
                ≡ ok (unlink q a l)
          loop_end zero stop = unfold remove_loop in rw stop refl
          loop_end (suc fuel) stop = unfold remove_loop in rw stop refl

      swept_miss_on :
          (fuel : ℕ) (ns : List ℕ)
          → Ready eq item l q p (a ∷ ns)
          → hits eq item l a ≡ false
          → Sweep eq item fuel l a (l.next a) ns
          → Sweep eq item (suc fuel) l q p (a ∷ ns)
      swept_miss_on fuel ns r miss s = record {
        l' = s.l';
        returns = rw r.chain.0 (loop_miss eq item fuel l q a r.chain.1 miss ∙ s.returns);
        swept =
            Swept-miss (hits eq item l) l s.l' q a ns miss r.chain.1 (r.points ∙ r.chain.0)
              r.outside r.distinct.0 r.alive.0 s.swept;
      }

      swept_hit_on :
          (fuel b : ℕ) (ns : List ℕ)
          → Ready eq item l q p (a ∷ b ∷ ns)
          → hits eq item l a ≡ true
          → Sweep eq item fuel (unlink q a l) b ((unlink q a l).next b) ns
          → Sweep eq item (suc (suc fuel)) l q p (a ∷ b ∷ ns)
      unfolding unlink relink delete_node
      swept_hit_on fuel b ns r is_hit s =
          let miss : hits eq item l b ≡ false = ground (arith, r.apart.0, is_hit) in
          let onward : (unlink q a l).next a ≡ b = next-unlink l q a a r.outside.0 ∙ r.chain.2.0 in
          record {
            l' = s.l';
            returns = rw r.chain.0 (
                loop_hit eq item (suc fuel) l q a r.chain.1 is_hit
                ∙ ap (λ (t : ℕ). remove_loop eq (suc fuel) a t item (unlink q a l)) onward
                ∙ loop_miss eq item fuel (unlink q a l) a b r.chain.2.1 miss
                ∙ s.returns);
            swept =
                Swept-hit (hits eq item l) l s.l' q a (b ∷ ns) is_hit r.distinct.0
                  (omega (arith, r.enough)) r.word
                  (Swept-miss (hits eq item l) (unlink q a l) s.l' q b ns miss r.chain.2.1
                    (link-unlink_here l q a ∙ r.chain.2.0) r.outside.1 r.distinct.1.0
                    (put_there a false l.live b r.distinct.0.0 ∙ r.alive.1.0) s.swept);
          }

    sweep :
        (fuel : ℕ) (l : LinkedList A) (q p : ℕ) (ns : List ℕ)
        → length ns ≤ fuel
        → Ready eq item l q p ns
        → Sweep eq item fuel l q p ns
    sweep fuel l q p [] enough r = Sweep-end eq item fuel l q p r.points r.chain
    sweep zero l q p (a ∷ ns) enough r = absurd (omega arith)
    sweep (suc fuel) l q p (a ∷ []) enough r = elim (Bool-cases (hits eq item l a)) [
      | inl is_hit ↦ swept_last l q p a fuel r is_hit
      | inr miss ↦
          swept_miss_on l q p a fuel [] r miss
            (sweep fuel l a (l.next a) [] (omega arith) (Ready-next eq item l q p a [] r))
    ]
    sweep (suc zero) l q p (a ∷ b ∷ ns) enough r = absurd (omega arith)
    sweep (suc (suc fuel)) l q p (a ∷ b ∷ ns) enough r = elim (Bool-cases (hits eq item l a)) [
      | inl is_hit ↦ swept_hit_on l q p a fuel b ns r is_hit (
          sweep fuel (unlink q a l) b ((unlink q a l).next b) ns (omega arith)
            (Ready-unlink l q p a b ns r))
      | inr miss ↦ swept_miss_on l q p a (suc fuel) (b ∷ ns) r miss (
          sweep (suc fuel) l a (l.next a) (b ∷ ns) (omega arith)
            (Ready-next eq item l q p a (b ∷ ns) r))
    ]

-- What remove does to a list.
pub record Removed {ℓ} {A : Type ℓ} (eq : A → A → Bool) (item : A) (fuel : ℕ) (l : LinkedList A)
    (ns : List ℕ) : Type ℓ where
  pub l' : LinkedList A
  pub returns : remove eq fuel item l ≡ ok l'
  pub represents : Represents l' (kept (hits eq item l) ns)
  pub same_payload : l'.payload ≡ l.payload
  pub deleted : All (λ a. l'.live a ≡ not (hits eq item l a)) ns
  pub others : (x : ℕ) → NotIn x ns → l'.live x ≡ l.live x

-- On a list in which no two neighbours equal the item, remove returns, in as many rounds as there are
-- nodes: the list then consists of the other nodes, in their order, its size is their number, just
-- the nodes that equal the item are deleted, and no node of another list is.
pub remove-Removed {ℓ} :
    {A : Type ℓ} (eq : A → A → Bool) (item : A) (fuel : ℕ) (l : LinkedList A) (ns : List ℕ)
    → Represents l ns
    → Apart (hits eq item l) ns
    → length ns ≤ fuel
    → Removed eq item fuel l ns
unfolding remove size kept
remove-Removed {A = A} eq item fuel l ns r apart enough =
    let s = sweep eq item fuel l 0 l.head ns enough (record {
      points = refl;
      chain = r.chain;
      outside = Chain-NotIn l.next l.head ns r.chain;
      distinct = r.distinct;
      alive = r.alive;
      apart = apart;
      enough = omega (arith, r.counted);
      word = omega (arith, r.counted, r.bounded);
    }) in
    let fewer = length-kept (hits eq item l) ns in
    record {
      l' = s.l';
      returns = s.returns;
      represents = record {
        chain = s.swept.chain;
        distinct = kept-Distinct (hits eq item l) ns r.distinct;
        alive = still_alive (hits eq item l) s.l' ns s.swept.live_inside;
        counted = omega (arith, r.counted, s.swept.counted);
        bounded = omega (arith, fewer, r.bounded);
      };
      same_payload = s.swept.same_payload;
      deleted = s.swept.live_inside;
      others = s.swept.live_outside;
    }
  where
    still_alive :
        (hit : ℕ → Bool) (l' : LinkedList A) (bs : List ℕ)
        → All (λ a. l'.live a ≡ not (hit a)) bs
        → All (λ a. l'.live a ≡ true) (kept hit bs)
    still_alive hit l' [] h = tt
    still_alive hit l' (b ∷ bs) h = elim (Bool-cases (hit b)) [
      | inl e ↦ rw e (still_alive hit l' bs h.1)
      | inr e ↦ rw e (h.0 ∙ rw e refl, still_alive hit l' bs h.1)
    ]
