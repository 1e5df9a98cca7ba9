-- ===== src/Collections/LinkedList/Remove.antt =====
-- LinkedList::remove (include/tachyon.collections/LinkedList.h) on lists in which no two neighbours
-- are removed.
use tachyon.Base.{
  ℕ, zero, suc, ◌+◌, ◌^◌, ◌≤◌, ◌<◌, ◌≡◌, refl, sym, ◌∙◌, ◌≢◌, inl, inr, Bool, true, false, not,
  ◌&&◌, List, [], ◌∷◌, arith, ◌==◌, if◌then◌else◌, ==_iff, Bool-cases, length, All, ok,
}
use tachyon.Collections.LinkedList.{LinkedList, relink, delete_node, unlink, remove_loop}
use tachyon.Collections.LinkedList.Chains.{NotIn, Distinct, Chain, Chain-ext, put_there, put_here}

-- The addresses that stay, in their order.
unfoldable pub kept : (ℕ → Bool) → List ℕ → List ℕ
kept hit [] = []
kept hit (a ∷ ns) = if hit a then kept hit ns else a ∷ kept hit ns

-- No two neighbours are hit.
abbrev pub Apart : (ℕ → Bool) → List ℕ → Type 0
Apart hit [] = Unit
Apart hit (a ∷ []) = Unit
Apart hit (a ∷ b ∷ ns) = (hit a && hit b ≡ false) × Apart hit (b ∷ ns)

pub Apart-tail : (hit : ℕ → Bool) (a : ℕ) (ns : List ℕ) → Apart hit (a ∷ ns) → Apart hit ns
Apart-tail hit a [] h = tt
Apart-tail hit a (b ∷ ns) h = h.1

pub length-kept : (hit : ℕ → Bool) (ns : List ℕ) → length (kept hit ns) ≤ length ns
unfolding kept
length-kept hit [] = omega arith
length-kept hit (a ∷ ns) = ground (arith, length-kept hit ns)

kept-NotIn : (hit : ℕ → Bool) (x : ℕ) (ns : List ℕ) → NotIn x ns → NotIn x (kept hit ns)
unfolding kept
kept-NotIn hit x [] h = tt
kept-NotIn hit x (a ∷ ns) h = elim (Bool-cases (hit a)) [
  | inl e ↦ rw e (kept-NotIn hit x ns h.1)
  | inr e ↦ rw e (h.0, kept-NotIn hit x ns h.1)
]

pub kept-Distinct : (hit : ℕ → Bool) (ns : List ℕ) → Distinct ns → Distinct (kept hit ns)
unfolding kept
kept-Distinct hit [] h = tt
kept-Distinct hit (a ∷ ns) h = elim (Bool-cases (hit a)) [
  | inl e ↦ rw e (kept-Distinct hit ns h.1)
  | inr e ↦ rw e (kept-NotIn hit a ns h.0, kept-Distinct hit ns h.1)
]

module _ {ℓ} {A : Type ℓ} where
  -- What points to the node behind `q`: the head for the null pointer.
  abbrev pub link : LinkedList A → ℕ → ℕ
  link l q = if q == 0 then l.head else l.next q

  pub link_next : (l : LinkedList A) (a : ℕ) → a ≢ 0 → link l a ≡ l.next a
  link_next l a some_node = let e : (a == 0) ≡ false = ground (arith, some_node) in rw e

  pub link-unlink_here : (l : LinkedList A) (q a : ℕ) → link (unlink q a l) q ≡ l.next a
  unfolding unlink relink delete_node
  link-unlink_here l q a = elim (Bool-cases (q == 0)) [
    | inl e ↦ rw e
    | inr e ↦ let here : (q == q) ≡ true = ground arith in rw (e, here)
  ]

  pub link-unlink_there : (l : LinkedList A) (q a x : ℕ) → x ≢ q → link (unlink q a l) x ≡ link l x
  unfolding unlink relink delete_node
  link-unlink_there l q a x differ = elim (Bool-cases (q == 0)) [
    | inl e ↦
        let other : (x == 0) ≡ false = ground (arith, (==_iff q 0).0 e, differ) in rw (e, other)
    | inr e ↦ let other : (x == q) ≡ false = ground (arith, differ) in rw (e, other)
  ]

  -- From `l` to `l'`, the nodes of `ns`, which `q` points to, are swept.
  pub record Swept (hit : ℕ → Bool) (l l' : LinkedList A) (q : ℕ) (ns : List ℕ) : Type ℓ where
    pub chain : Chain l'.next (link l' q) (kept hit ns)
    pub frame : (x : ℕ) → x ≢ q → NotIn x ns → link l' x ≡ link l x
    pub same_payload : l'.payload ≡ l.payload
    pub live_inside : All (λ a. l'.live a ≡ not (hit a)) ns
    pub live_outside : (x : ℕ) → NotIn x ns → l'.live x ≡ l.live x
    pub counted : l'.count + length ns ≡ l.count + length (kept hit ns)

  pub nothing-Swept :
      (hit : ℕ → Bool) (l : LinkedList A) (q : ℕ) → link l q ≡ 0 → Swept hit l l q []
  unfolding kept
  nothing-Swept hit l q stop = record {
    chain = stop;
    frame = λ x differ outside. refl;
    same_payload = refl;
    live_inside = tt;
    live_outside = λ x outside. refl;
    counted = refl;
  }

  -- A node that stays, before nodes that are swept from it on.
  pub Swept-miss :
      (hit : ℕ → Bool) (l l' : LinkedList A) (q a : ℕ) (ns : List ℕ)
      → hit a ≡ false
      → a ≢ 0
      → link l q ≡ a
      → NotIn q (a ∷ ns)
      → NotIn a ns
      → l.live a ≡ true
      → Swept hit l l' a ns
      → Swept hit l l' q (a ∷ ns)
  unfolding kept
  Swept-miss hit l l' q a ns miss some_node points q_out a_out alive s = record {
    chain = rw miss (
      s.frame q q_out.0 q_out.1 ∙ points,
      some_node,
      Chain-ext l'.next l'.next (link l' a) (l'.next a) (kept hit ns)
          (sym (link_next l' a some_node)) (agree (kept hit ns)) s.chain,
    );
    frame = λ x differ outside. s.frame x outside.0 outside.1;
    same_payload = s.same_payload;
    live_inside = (s.live_outside a a_out ∙ alive ∙ rw miss, s.live_inside);
    live_outside = λ x outside. s.live_outside x outside.1;
    counted = rw miss (omega (arith, s.counted));
  }
    where
      agree : (bs : List ℕ) → All (λ b. l'.next b ≡ l'.next b) bs
      agree [] = tt
      agree (b ∷ bs) = (refl, agree bs)

  -- A node that is unlinked, before nodes that are swept behind it.
  pub Swept-hit :
      (hit : ℕ → Bool) (l l' : LinkedList A) (q a : ℕ) (ns : List ℕ)
      → hit a ≡ true
      → NotIn a ns
      → 0 < l.count
      → l.count < 2 ^ 64
      → Swept hit (unlink q a l) l' q ns
      → Swept hit l l' q (a ∷ ns)
  unfolding kept unlink relink delete_node
  Swept-hit hit l l' q a ns is_hit a_out some_count word s = record {
    chain = rw is_hit s.chain;
    frame = λ x differ outside. s.frame x differ outside.1 ∙ link-unlink_there l q a x differ;
    same_payload = s.same_payload;
    live_inside = (s.live_outside a a_out ∙ put_here a false l.live ∙ rw is_hit, s.live_inside);
    live_outside = λ x outside.
        s.live_outside x outside.1 ∙ put_there a false l.live x (λ e. outside.0 (sym e));
    counted = rw is_hit (omega (arith, s.counted, some_count, word));
  }

  module _ (eq : A → A → Bool) (item : A) where
    abbrev pub hits : LinkedList A → ℕ → Bool
    hits l a = eq (l.payload a) item

    -- The loop from the node that `q` points to.
    pub record Sweep (fuel : ℕ) (l : LinkedList A) (q p : ℕ) (ns : List ℕ) : Type ℓ where
      pub l' : LinkedList A
      pub returns : remove_loop eq fuel q p item l ≡ ok l'
      pub swept : Swept (hits l) l l' q ns

    pub Sweep-end :
        (fuel : ℕ) (l : LinkedList A) (q p : ℕ) → link l q ≡ p → p ≡ 0 → Sweep fuel l q p []
    unfolding remove_loop
    Sweep-end zero l q p points stop = record {
      l' = l;
      returns = rw stop refl;
      swept = nothing-Swept (hits l) l q (points ∙ stop);
    }
    Sweep-end (suc fuel) l q p points stop = record {
      l' = l;
      returns = rw stop refl;
      swept = nothing-Swept (hits l) l q (points ∙ stop);
    }

    pub loop_miss :
        (fuel : ℕ) (l : LinkedList A) (q a : ℕ)
        → a ≢ 0
        → hits l a ≡ false
        → remove_loop eq (suc fuel) q a item l ≡ remove_loop eq fuel a (l.next a) item l
    unfolding remove_loop
    loop_miss fuel l q a some_node miss =
        let e : (a == 0) ≡ false = ground (arith, some_node) in rw (miss, e)

    pub loop_hit :
        (fuel : ℕ) (l : LinkedList A) (q a : ℕ)
        → a ≢ 0
        → hits l a ≡ true
        → remove_loop eq (suc fuel) q a item l
          ≡ remove_loop eq fuel a ((unlink q a l).next a) item (unlink q a l)
    unfolding remove_loop
    loop_hit fuel l q a some_node is_hit =
        let e : (a == 0) ≡ false = ground (arith, some_node) in rw (is_hit, e)

    -- What the loop needs at a node.
    pub record Ready (l : LinkedList A) (q p : ℕ) (ns : List ℕ) : Type ℓ where
      pub points : link l q ≡ p
      pub chain : Chain l.next p ns
      pub outside : NotIn q ns
      pub distinct : Distinct ns
      pub alive : All (λ a. l.live a ≡ true) ns
      pub apart : Apart (hits l) ns
      pub enough : length ns ≤ l.count
      pub word : l.count < 2 ^ 64

    pub Ready-next :
        (l : LinkedList A) (q p a : ℕ) (ns : List ℕ)
        → Ready l q p (a ∷ ns)
        → Ready l a (l.next a) ns
    Ready-next l q p a ns r = record {
      points = link_next l a r.chain.1;
      chain = r.chain.2;
      outside = r.distinct.0;
      distinct = r.distinct.1;
      alive = r.alive.1;
      apart = Apart-tail (hits l) a ns r.apart;
      enough = omega (arith, r.enough);
      word = r.word;
    }
