-- ===== src/Memory/SmartPointer/Counted.antt =====
-- The reference counts of the smart pointers (include/tachyon.memory/SmartPointer.h) under each
-- operation.
use mathlib.Core.Path.{subst}
use tachyon.Base.{
  ℕ, ◌+◌, ◌^◌, ◌<◌, ◌≡◌, ap, ◌≢◌, ◌⊎◌, inl, inr, true, false, Option, none, some, arith, ◌==◌,
  length, get_or, set, length-set,
}
use tachyon.Memory.SmartPointer.{SmartPointer, Pointers, slot, put, up, construct, share}
use tachyon.Memory.SmartPointer.Uses.{one, uses, uses-set, uses_le, uses_zero, slot_set}

-- Each counter holds the number of the smart pointers that share it; the counters and the objects of
-- the smart pointers are allocated; and an object has one counter.
pub record IsCounted (s : Pointers) : Type 0 where
  pub owner : ℕ → ℕ
  pub counted : (i : ℕ) (p : SmartPointer) → slot s i ≡ some p → s.count p.cnt ≡ uses p.cnt s.slots
  pub counters : (i : ℕ) (p : SmartPointer) → slot s i ≡ some p → s.counter_live p.cnt ≡ true
  pub objects :
      (i : ℕ) (p : SmartPointer) → slot s i ≡ some p → p.ptr ≢ 0 → s.object_live p.ptr ≡ true
  pub owned : (i : ℕ) (p : SmartPointer) → slot s i ≡ some p → p.ptr ≢ 0 → owner p.ptr ≡ p.cnt
  pub bounded : length s.slots < 2 ^ 64

module _ (s : Pointers) (h : IsCounted s) (i : ℕ) (inside : i < length s.slots)
    (vacant : slot s i ≡ none) where
  fits : (c : ℕ) (v : Option SmartPointer) → uses c (set s.slots i v) < 2 ^ 64
  fits c v = omega (arith, uses_le c (set s.slots i v), length-set s.slots i v, h.bounded)

  more : (c : ℕ) (v : Option SmartPointer) → uses c (set s.slots i v) ≡ uses c s.slots + one c v
  more c v = omega (arith, uses-set c s.slots i v inside, ap (one c) vacant)

  -- Of two slots of the new state, one is the new smart pointer and the others are as before.
  cases_new :
      (v p : SmartPointer) (k : ℕ)
      → get_or (set s.slots i (some v)) k none ≡ some p
      → (v ≡ p) ⊎ (slot s k ≡ some p)
  cases_new v p k here = elim (slot_set s.slots i k (some v) p inside here) [
    | inl (e, same_pointer) ↦ inl cc
    | inr (e, old) ↦ inr old
  ]

  share_count :
      (j : ℕ) (p q : SmartPointer)
      → slot s j ≡ some p
      → s.count q.cnt ≡ uses q.cnt s.slots
      → (share i (some p) s).count q.cnt ≡ uses q.cnt (set s.slots i (some p))
  unfolding share up
  share_count j p q source old = ground (arith, more q.cnt (some p), fits q.cnt (some p), old)

  pub share-IsCounted :
      (j : ℕ) (p : SmartPointer) → slot s j ≡ some p → IsCounted (share i (some p) s)
  unfolding share up
  share-IsCounted j p source = record {
    owner = h.owner;
    counted = λ k q here. elim (cases_new p q k here) [
      | inl e ↦
          subst
            (λ (t : SmartPointer).
              (share i (some p) s).count t.cnt ≡ uses t.cnt (set s.slots i (some p)))
            e (share_count j p p source (h.counted j p source))
      | inr old ↦ share_count j p q source (h.counted k q old)
    ];
    counters = λ k q here. elim (cases_new p q k here) [
      | inl e ↦ subst (λ (t : SmartPointer). s.counter_live t.cnt ≡ true) e (h.counters j p source)
      | inr old ↦ h.counters k q old
    ];
    objects = λ k q here some_object. elim (cases_new p q k here) [
      | inl e ↦
          subst (λ (t : SmartPointer). t.ptr ≢ 0 → s.object_live t.ptr ≡ true) e
            (h.objects j p source) some_object
      | inr old ↦ h.objects k q old some_object
    ];
    owned = λ k q here some_object. elim (cases_new p q k here) [
      | inl e ↦
          subst (λ (t : SmartPointer). t.ptr ≢ 0 → h.owner t.ptr ≡ t.cnt) e (h.owned j p source)
            some_object
      | inr old ↦ h.owned k q old some_object
    ];
    bounded = omega (arith, length-set s.slots i (some p), h.bounded);
  }

  -- A new counter, for a null pointer or an object that no smart pointer has.
  module _ (c object : ℕ) (fresh : s.counter_live c ≡ false)
      (unmanaged : (k : ℕ) (q : SmartPointer) → slot s k ≡ some q → q.ptr ≢ 0 → q.ptr ≢ object)
      (allocated : object ≢ 0 → s.object_live object ≡ true) where
    abbrev new : SmartPointer
    new = record { cnt = c; ptr = object }

    other_counter : (k : ℕ) (q : SmartPointer) → slot s k ≡ some q → q.cnt ≢ c
    other_counter k q here e = ground (arith, h.counters k q here, fresh, ap s.counter_live e)

    pub construct-IsCounted : IsCounted (construct i c object s)
    unfolding construct up
    construct-IsCounted = record {
      owner = put object c h.owner;
      counted = λ k q here. elim (cases_new new q k here) [
        | inl e ↦
            subst
              (λ (t : SmartPointer).
                (construct i c object s).count t.cnt ≡ uses t.cnt (set s.slots i (some new)))
              e (ground (arith, more c (some new), uses_zero c s.slots other_counter))
        | inr old ↦ ground (arith, more q.cnt (some new), h.counted k q old, other_counter k q old)
      ];
      counters = λ k q here. elim (cases_new new q k here) [
        | inl e ↦
            subst (λ (t : SmartPointer). put c true s.counter_live t.cnt ≡ true) e
              (let self : (c == c) ≡ true = ground arith in rw self)
        | inr old ↦
            let differ : (q.cnt == c) ≡ false = ground (arith, other_counter k q old) in
            rw differ (h.counters k q old)
      ];
      objects = λ k q here some_object. elim (cases_new new q k here) [
        | inl e ↦
            subst (λ (t : SmartPointer). t.ptr ≢ 0 → s.object_live t.ptr ≡ true) e allocated
              some_object
        | inr old ↦ h.objects k q old some_object
      ];
      owned = λ k q here some_object. elim (cases_new new q k here) [
        | inl e ↦
            subst (λ (t : SmartPointer). put object c h.owner t.ptr ≡ t.cnt) e
              (let self : (object == object) ≡ true = ground arith in rw self)
        | inr old ↦
            let differ : (q.ptr == object) ≡ false =
              ground (arith, unmanaged k q old some_object) in
            rw differ (h.owned k q old some_object)
      ];
      bounded = omega (arith, length-set s.slots i (some new), h.bounded);
    }
