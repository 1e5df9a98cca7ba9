-- ===== src/Memory/SmartPointer/Destroy.antt =====
-- The destructor and the assignment of SmartPointer (include/tachyon.memory/SmartPointer.h).
use mathlib.Core.Path.{subst}
use tachyon.Base.{
  ℕ, ◌+◌, ◌<◌, ◌≡◌, refl, sym, ap, ◌∙◌, ◌≢◌, inl, inr, Bool, true, false, not, ◌&&◌, Option, none,
  some, List, arith, ◌==◌, if◌then◌else◌, ==_iff, Bool-cases, length, get_or, set, length-set,
  get_or-set,
}
use tachyon.Base.Bits.{sub64}
use tachyon.Memory.SmartPointer.{
  SmartPointer, Pointers, slot, put, up, release, share, destroy, assign,
}
use tachyon.Memory.SmartPointer.Uses.{
  one, uses, uses-set, uses_le, uses_pos, below_length, set-set, slot_set,
}
use tachyon.Memory.SmartPointer.Counted.{IsCounted, share-IsCounted}

-- The destructor deletes the counter and the object with the last smart pointer, and otherwise
-- deletes nothing.
pub record Destroyed (s : Pointers) (p : SmartPointer) (s' : Pointers) : Type 0 where
  pub counted : IsCounted s'
  pub last :
      uses p.cnt s.slots ≡ 1
      → (s'.counter_live p.cnt ≡ false) × (p.ptr ≢ 0 → s'.object_live p.ptr ≡ false)
  pub shared :
      1 < uses p.cnt s.slots → (s'.counter_live ≡ s.counter_live) × (s'.object_live ≡ s.object_live)
  pub other_objects : (x : ℕ) → x ≢ p.ptr → s'.object_live x ≡ s.object_live x

module _ (s : Pointers) (h : IsCounted s) (i : ℕ) (p : SmartPointer)
    (here : slot s i ≡ some p) where
  abbrev left : List (Option SmartPointer)
  left = set s.slots i none

  inside : i < length s.slots
  inside = below_length s.slots i p here

  fewer : (c : ℕ) → uses c left + one c (some p) ≡ uses c s.slots
  fewer c = omega (arith, uses-set c s.slots i none inside, ap (one c) here)

  old_slot : (k : ℕ) (q : SmartPointer) → get_or left k none ≡ some q → slot s k ≡ some q
  old_slot k q there = elim (slot_set s.slots i k none q inside there) [
    | inl (e, impossible) ↦ cc
    | inr (e, old) ↦ old
  ]

  -- What down() returns.
  down_count : sub64 (s.count p.cnt) 1 ≡ uses p.cnt left
  down_count =
      let self : (p.cnt == p.cnt) ≡ true = ground arith in
      let one_less : uses p.cnt left + 1 ≡ uses p.cnt s.slots =
        ap (λ (t : ℕ). uses p.cnt left + t) (sym (rw self refl)) ∙ fewer p.cnt in
      omega (arith, h.counted i p here, one_less, uses_le p.cnt s.slots, h.bounded)

  count_left :
      (k : ℕ) (q : SmartPointer)
      → get_or left k none ≡ some q
      → put p.cnt (sub64 (s.count p.cnt) 1) s.count q.cnt ≡ uses q.cnt left
  count_left k q there = elim (Bool-cases (q.cnt == p.cnt)) [
    | inl e ↦
        let same_counter : q.cnt ≡ p.cnt = (==_iff q.cnt p.cnt).0 e in
        rw e (down_count ∙ ap (λ (t : ℕ). uses t left) (sym same_counter))
    | inr e ↦ ground (arith, e, fewer q.cnt, h.counted k q (old_slot k q there))
  ]

  -- The counter of a smart pointer that is left is not 0.
  in_use :
      (k : ℕ) (q : SmartPointer)
      → get_or left k none ≡ some q
      → q.cnt ≡ p.cnt
      → (sub64 (s.count p.cnt) 1 == 0) ≡ false
  in_use k q there same_counter =
      ground (arith, down_count, uses_pos left k q there, ap (λ (t : ℕ). uses t left) same_counter)

  counter_left :
      (k : ℕ) (q : SmartPointer)
      → get_or left k none ≡ some q
      → (destroy i s).counter_live q.cnt ≡ true
  unfolding destroy release
  counter_left k q there = elim (Bool-cases (q.cnt == p.cnt)) [
    | inl e ↦
        rw (here, in_use k q there ((==_iff q.cnt p.cnt).0 e)) (h.counters k q (old_slot k q there))
    | inr e ↦ rw here (kept_live (sub64 (s.count p.cnt) 1 == 0) e)
  ]
    where
      kept_live :
          (b : Bool)
          → (q.cnt == p.cnt) ≡ false
          → (if b then put p.cnt false s.counter_live else s.counter_live) q.cnt ≡ true
      kept_live true e = rw e (h.counters k q (old_slot k q there))
      kept_live false e = h.counters k q (old_slot k q there)

  object_left :
      (k : ℕ) (q : SmartPointer)
      → get_or left k none ≡ some q
      → q.ptr ≢ 0
      → (destroy i s).object_live q.ptr ≡ true
  unfolding destroy release
  object_left k q there some_object = elim (Bool-cases (q.ptr == p.ptr)) [
    | inl e ↦
        let same_object : q.ptr ≡ p.ptr = (==_iff q.ptr p.ptr).0 e in
        let old = old_slot k q there in
        let same_counter : q.cnt ≡ p.cnt =
          sym (h.owned k q old some_object)
          ∙ ap h.owner same_object
          ∙ h.owned i p here (λ z. some_object (same_object ∙ z)) in
        rw (here, in_use k q there same_counter) (h.objects k q old some_object)
    | inr e ↦ rw here (kept_live (sub64 (s.count p.cnt) 1 == 0 && not (p.ptr == 0)) e)
  ]
    where
      kept_live :
          (b : Bool)
          → (q.ptr == p.ptr) ≡ false
          → (if b then put p.ptr false s.object_live else s.object_live) q.ptr ≡ true
      kept_live true e = rw e (h.objects k q (old_slot k q there) some_object)
      kept_live false e = h.objects k q (old_slot k q there) some_object

  pub destroy-IsCounted : IsCounted (destroy i s)
  destroy-IsCounted = record {
    owner = h.owner;
    counted = λ k q there. unfold destroy release in rw here (count_left k q (moved k q there));
    counters = λ k q there. counter_left k q (moved k q there);
    objects = λ k q there. object_left k q (moved k q there);
    owned = λ k q there. h.owned k q (old_slot k q (moved k q there));
    bounded = omega (
      arith,
      ap (λ (t : List (Option SmartPointer)). length t) slots_left,
      length-set s.slots i none,
      h.bounded,
    );
  }
    where
      slots_left : (destroy i s).slots ≡ left
      slots_left = unfold destroy release in rw here

      moved :
          (k : ℕ) (q : SmartPointer) → slot (destroy i s) k ≡ some q → get_or left k none ≡ some q
      moved k q there =
          ap (λ (t : List (Option SmartPointer)). get_or t k none) (sym slots_left) ∙ there

  -- The destructor of a smart pointer keeps the counts right; it deletes the counter and the object
  -- if the smart pointer is the last one that shares them, and deletes nothing if it is not.
  pub destroy-Destroyed : Destroyed s p (destroy i s)
  destroy-Destroyed = record {
    counted = destroy-IsCounted;
    last = λ is_last.
        let zero_left : (sub64 (s.count p.cnt) 1 == 0) ≡ true =
          ground (arith, down_count, fewer p.cnt, is_last) in
        (
          unfold destroy release in
              rw (here, zero_left) (let self : (p.cnt == p.cnt) ≡ true = ground arith in rw self),
          λ some_object.
              unfold destroy release in
              (let null : (p.ptr == 0) ≡ false = ground (arith, some_object) in
                let self : (p.ptr == p.ptr) ≡ true = ground arith in
                rw (here, zero_left, null, self)),
        );
    shared = λ is_shared.
        let some_left : (sub64 (s.count p.cnt) 1 == 0) ≡ false =
          ground (arith, down_count, fewer p.cnt, is_shared) in
        (
          unfold destroy release in rw (here, some_left) refl,
          unfold destroy release in rw (here, some_left) refl,
        );
    other_objects = λ x differ.
        unfold destroy release in
        rw here (unchanged x (sub64 (s.count p.cnt) 1 == 0 && not (p.ptr == 0)) differ);
  }
    where
      unchanged :
          (x : ℕ) (b : Bool)
          → x ≢ p.ptr
          → (if b then put p.ptr false s.object_live else s.object_live) x ≡ s.object_live x
      unchanged x true differ = let e : (x == p.ptr) ≡ false = ground (arith, differ) in rw e
      unchanged x false differ = refl

  -- Assignment from another slot is destruction and then copying.
  assign_lem :
      (j : ℕ) (q : SmartPointer)
      → i ≢ j
      → slot s j ≡ some q
      → assign i j s ≡ share i (some q) (destroy i s)
  unfolding assign share destroy release up
  assign_lem j q differ source =
      let other : (i == j) ≡ false = ground (arith, differ) in
      rw (other, source, here, set-set s.slots i none (some q)) refl

  pub assign-IsCounted : (j : ℕ) (q : SmartPointer) → slot s j ≡ some q → IsCounted (assign i j s)
  assign-IsCounted j q source = elim (Bool-cases (i == j)) [
    | inl e ↦ unfold assign in rw e h
    | inr e ↦
        let differ : i ≢ j = ground arith in
        subst IsCounted (sym (assign_lem j q differ source)) (
          share-IsCounted (destroy i s) destroy-IsCounted i still_inside emptied j q
            (kept_slot differ))
  ]
    where
      slots_left : (destroy i s).slots ≡ left
      slots_left = unfold destroy release in rw here

      still_inside : i < length (destroy i s).slots
      still_inside = omega (
        arith,
        inside,
        ap (λ (t : List (Option SmartPointer)). length t) slots_left,
        length-set s.slots i none,
      )

      emptied : slot (destroy i s) i ≡ none
      emptied =
          ap (λ (t : List (Option SmartPointer)). get_or t i none) slots_left
          ∙ get_or-set s.slots i i none none inside
          ∙ (let self : (i == i) ≡ true = ground arith in rw self)

      kept_slot : i ≢ j → slot (destroy i s) j ≡ some q
      kept_slot differ =
          ap (λ (t : List (Option SmartPointer)). get_or t j none) slots_left
          ∙ get_or-set s.slots i j none none inside
          ∙ (let other : (i == j) ≡ false = ground (arith, differ) in rw other source)
