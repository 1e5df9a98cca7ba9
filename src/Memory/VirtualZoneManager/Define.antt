-- ===== src/Memory/VirtualZoneManager/Define.antt =====
-- VirtualZoneManager::define (core/tachyon.memory/VirtualZoneManager.cc).
use tachyon.Base.{
  ℕ, zero, suc, ◌+◌, ◌≤◌, ◌<◌, ◌≡◌, refl, sym, ap, ◌∙◌, ◌⊎◌, inl, inr, true, false, Option, none,
  some, List, [], ◌∷◌, arith, leb, ◌==◌, leb→le, Bool-cases, Option-cases, length, get_or, set, All,
  get_or-set,
}
use tachyon.Memory.VirtualZoneManager.{
  VirtualZone, no_zone, init, destroy, is_free, overlaps, find_free, define, remove,
}

-- A defined zone and a region apart from each other.
abbrev pub Apart : ℕ → ℕ → VirtualZone → Type 0
Apart start end z = (end ≤ z.start) ⊎ (z.end ≤ start)

-- A region strictly inside a zone, on both sides.
abbrev pub Inside : ℕ → ℕ → VirtualZone → Type 0
Inside start end z = (z.start < start) × (end < z.end)

-- A boundary of the zone lies in the region: its start, or its end.
abbrev pub Touches : ℕ → ℕ → VirtualZone → Type 0
Touches start end z = ((start ≤ z.start) × (z.start < end)) ⊎ ((start < z.end) × (z.end ≤ end))

-- A zone of the table that is defined.
abbrev pub Used : List VirtualZone → ℕ → Type 0
Used zs j = (j < length zs) × (is_free (get_or zs j no_zone) ≡ false)

-- The scan stops at a zone with a boundary in the region.
stops :
    (zs : List VirtualZone) (i start end : ℕ) (free : Option ℕ)
    → find_free zs i start end free ≡ none
    → (j : ℕ) × Used zs j × Touches start end (get_or zs j no_zone)
unfolding find_free overlaps
stops [] i start end free h = absurd cc
stops (z ∷ zs) i start end free h = elim (Bool-cases (is_free z)) [
  | inl f ↦
      let (j, used, touches) = stops zs (i + 1) start end (some i) (rw f at h) in
      (suc j, (omega (arith, used.0), used.1), touches)
  | inr f ↦ elim (Bool-cases (overlaps start end z)) [
    | inl o ↦ (0, (omega arith, f), ground (arith, o))
    | inr o ↦
        let (j, used, touches) = stops zs (i + 1) start end free (rw (f, o) at h) in
        (suc j, (omega (arith, used.0), used.1), touches)
  ]
]

-- A scan that knows a free zone, or meets one, does not end without one.
full :
    (zs : List VirtualZone) (i start end : ℕ) (free : Option ℕ)
    → find_free zs i start end free ≡ some none
    → (free ≡ none) × ((j : ℕ) → j < length zs → is_free (get_or zs j no_zone) ≡ false)
unfolding find_free
full [] i start end free h = (ground arith, λ j below. absurd (omega arith))
full (z ∷ zs) i start end free h = elim (Bool-cases (is_free z)) [
  | inl f ↦ absurd (let h' = (full zs (i + 1) start end (some i) (rw f at h)).0 in cc)
  | inr f ↦ elim (Bool-cases (overlaps start end z)) [
    | inl o ↦ absurd (let h' = rw (f, o) at h in cc)
    | inr o ↦
        let (no_free, others) = full zs (i + 1) start end free (rw (f, o) at h) in
        (no_free, each f others)
  ]
]
  where
    each :
        is_free z ≡ false
        → ((j : ℕ) → j < length zs → is_free (get_or zs j no_zone) ≡ false)
        → (j : ℕ) → j < suc (length zs)
        → is_free (get_or (z ∷ zs) j no_zone) ≡ false
    each f others zero below = f
    each f others (suc j) below = others j (omega arith)

-- What the scan has seen of the zones from an index on.
abbrev Passed : ℕ → ℕ → VirtualZone → Type 0
Passed start end z = (is_free z ≡ true) ⊎ ((is_free z ≡ false) × (overlaps start end z ≡ false))

passes :
    (zs : List VirtualZone) (i start end : ℕ) (free r : Option ℕ)
    → find_free zs i start end free ≡ some r
    → All (Passed start end) zs
unfolding find_free
passes [] i start end free r h = tt
passes (z ∷ zs) i start end free r h = elim (Bool-cases (is_free z)) [
  | inl f ↦ (inl f, passes zs (i + 1) start end (some i) r (rw f at h))
  | inr f ↦ elim (Bool-cases (overlaps start end z)) [
    | inl o ↦ absurd (let h' = rw (f, o) at h in cc)
    | inr o ↦ (inr (f, o), passes zs (i + 1) start end free r (rw (f, o) at h))
  ]
]

-- Where the free zone comes from.
picks :
    (zs : List VirtualZone) (i start end : ℕ) (free : Option ℕ) (k : ℕ)
    → find_free zs i start end free ≡ some (some k)
    → (free ≡ some k)
      ⊎ ((j : ℕ) × (k ≡ i + j) × (j < length zs) × (is_free (get_or zs j no_zone) ≡ true))
unfolding find_free
picks [] i start end free k h = inl (ground arith)
picks (z ∷ zs) i start end free k h = elim (Bool-cases (is_free z)) [
  | inl f ↦ elim (picks zs (i + 1) start end (some i) k (rw f at h)) [
    | inl e ↦ inr (0, ground arith, omega arith, f)
    | inr (j, e, below, here) ↦ inr (suc j, omega arith, omega arith, here)
  ]
  | inr f ↦ elim (Bool-cases (overlaps start end z)) [
    | inl o ↦ absurd (let h' = rw (f, o) at h in cc)
    | inr o ↦ elim (picks zs (i + 1) start end free k (rw (f, o) at h)) [
      | inl e ↦ inl e
      | inr (j, e, below, here) ↦ inr (suc j, omega arith, omega arith, here)
    ]
  ]
]

-- The result of define on success: a free zone takes the region.
pub record Defined (start end : ℕ) (zones : List VirtualZone) (k : ℕ) : Type 0 where
  pub below : k < length zones
  pub was_free : is_free (get_or zones k no_zone) ≡ true
  pub returns :
      define start end zones ≡ (set zones k (init start end (get_or zones k no_zone)), some k)
  pub separate :
      (j : ℕ)
      → j < length zones
      → is_free (get_or zones j no_zone) ≡ false
      → (get_or zones j no_zone).start < (get_or zones j no_zone).end
      → Apart start end (get_or zones j no_zone) ⊎ Inside start end (get_or zones j no_zone)

Passed-Separate :
    (start end : ℕ) (z : VirtualZone)
    → start < end
    → Passed start end z
    → is_free z ≡ false
    → z.start < z.end
    → Apart start end z ⊎ Inside start end z
unfolding overlaps
Passed-Separate start end z order (inl f) used zone = absurd (ground arith)
Passed-Separate start end z order (inr (f, o)) used zone = elim (Bool-cases (leb end z.start)) [
  | inl h ↦ inl (inl (leb→le _ _ h))
  | inr h ↦ elim (Bool-cases (leb z.end start)) [
    | inl h' ↦ inl (inr (leb→le _ _ h'))
    | inr h' ↦ inr (ground arith, ground arith)
  ]
]

get-Passed :
    (start end : ℕ) (zs : List VirtualZone) (j : ℕ)
    → j < length zs
    → All (Passed start end) zs
    → Passed start end (get_or zs j no_zone)
get-Passed start end [] j below h = absurd (omega arith)
get-Passed start end (z ∷ zs) zero below h = h.0
get-Passed start end (z ∷ zs) (suc j) below h = get-Passed start end zs j (omega arith) h.1

-- Why define rejects a region.
pub data Reason (start end : ℕ) (zones : List VirtualZone) : Type 0 where
  overlap :
      (j : ℕ) → Used zones j → Touches start end (get_or zones j no_zone) → Reason start end zones
  no_room :
      ((j : ℕ) → j < length zones → is_free (get_or zones j no_zone) ≡ false)
      → Reason start end zones

-- How define ends: it defines a region, or returns 0 with nothing changed.
pub data Ends (start end : ℕ) (zones : List VirtualZone) : Type 0 where
  defined : (k : ℕ) → Defined start end zones k → Ends start end zones
  rejected : define start end zones ≡ (zones, none) → Reason start end zones → Ends start end zones

-- define on a region that is not empty: a free zone takes the region, and each zone defined before
-- is apart from it or strictly contains it; or the result is 0 and nothing changes, and a zone
-- defined before has its start or its end in the region, or no zone is free.
pub define-Ends : (start end : ℕ) (zones : List VirtualZone) → start < end → Ends start end zones
define-Ends start end zones order = elim (Option-cases (find_free zones 0 start end none)) [
  | inl h ↦ rejected (unfold define in rw h) (stopped h)
  | inr (r, h) ↦ elim (Option-cases r) [
    | inl e ↦
        rejected (unfold define in rw (h, e))
          (no_room (full zones 0 start end none (h ∙ ap some e)).1)
    | inr (k, e) ↦ elim (picks zones 0 start end none k (h ∙ ap some e)) [
      | inl never ↦ absurd cc
      | inr (j, at, below, here) ↦
          let same_index : j ≡ k = omega arith in
          defined k (record {
            below = omega arith;
            was_free = ap (λ (t : ℕ). is_free (get_or zones t no_zone)) (sym same_index) ∙ here;
            returns = unfold define in rw (h, e);
            separate = λ i inside used zone.
                Passed-Separate start end (get_or zones i no_zone) order
                  (get-Passed start end zones i inside (passes zones 0 start end none r h)) used
                  zone;
          })
    ]
  ]
]
  where
    stopped : find_free zones 0 start end none ≡ none → Reason start end zones
    stopped h = let (j, used, touches) = stops zones 0 start end none h in overlap j used touches

set_back :
    (zs : List VirtualZone) (k : ℕ) (z : VirtualZone)
    → k < length zs
    → set (set zs k z) k (get_or zs k no_zone) ≡ zs
set_back [] k z below = absurd (omega arith)
set_back (w ∷ zs) zero z below = refl
set_back (w ∷ zs) (suc k) z below = ap (◌∷◌ w) (set_back zs k z (omega arith))

free_zone : (z : VirtualZone) (s e : ℕ) → is_free z ≡ true → destroy (init s e z) ≡ z
unfolding is_free
free_zone z s e h =
    ap (λ (t : ℕ). the_zone t z.end) (sym zero_start)
    ∙ ap (λ (t : ℕ). record z { end = t }) (sym zero_end)
  where
    the_zone : ℕ → ℕ → VirtualZone
    the_zone a b = record z { start = a; end = 0 }

    zero_start : z.start ≡ 0
    zero_start = ground arith

    zero_end : z.end ≡ 0
    zero_end = ground arith

-- remove undoes define: the table is as it was before.
pub remove-define :
    (start end k : ℕ) (zones : List VirtualZone)
    → Defined start end zones k
    → remove k (define start end zones).0 ≡ zones
unfolding remove
remove-define start end k zones d = rw d.returns (
    rw (get_or-set zones k k (init start end (get_or zones k no_zone)) no_zone d.below, the_same k)
      (ap (set (set zones k (init start end (get_or zones k no_zone))) k)
          (free_zone (get_or zones k no_zone) start end d.was_free)
        ∙ set_back zones k (init start end (get_or zones k no_zone)) d.below))
  where
    the_same : (n : ℕ) → (n == n) ≡ true
    the_same n = ground arith
