-- ===== src/Collections/BitMap/Search.antt =====
-- BitMap::getIndexOf: what the scan finds, and where it stops.
use tachyon.Base.{
  ℕ, zero, suc, ◌+◌, ◌-◌, ◌*◌, ◌^◌, ◌≤◌, ◌<◌, ◌≡◌, ◌≢◌, ◌⊎◌, inl, inr, refl, Bool, false, ok, arith,
  same, same→eq, Bool-cases, leb, lt→leb,
}
use tachyon.Collections.BitMap.{BitMap, bit_at, scan, get_index_of_from, not_found}
use tachyon.Collections.BitMap.Laws.{IsBitMap, get-bit_at}

-- No index from `lo` up to and without `hi` holds `v`.
abbrev pub Absent : BitMap → Bool → ℕ → ℕ → Type 0
Absent m v lo hi = (j : ℕ) → lo ≤ j → j < hi → bit_at m j ≢ v

-- The first index with `v` in the range, or -1.
pub record First (m : BitMap) (v : Bool) (lo hi r : ℕ) : Type 0 where
  pub above : lo ≤ r
  pub below : r < hi
  pub holds : bit_at m r ≡ v
  pub least : Absent m v lo r

pub record Missing (m : BitMap) (v : Bool) (lo hi r : ℕ) : Type 0 where
  pub is_not_found : r ≡ not_found
  pub absent : Absent m v lo hi

abbrev pub Finds : BitMap → Bool → ℕ → ℕ → ℕ → Type 0
Finds m v lo hi r = First m v lo hi r ⊎ Missing m v lo hi r

Absent-step :
    (m : BitMap) (v : Bool) (lo hi : ℕ)
    → bit_at m lo ≢ v
    → Absent m v (lo + 1) hi
    → Absent m v lo hi
Absent-step m v lo hi here rest j p q = elim (Bool-cases (leb (lo + 1) j)) [
  | inl e ↦ rest j (ground arith) q
  | inr e ↦ let eq : lo ≡ j = ground arith in rw eq at here
]

Finds-step :
    (m : BitMap) (v : Bool) (lo hi r : ℕ)
    → bit_at m lo ≢ v
    → Finds m v (lo + 1) hi r
    → Finds m v lo hi r
Finds-step m v lo hi r here (inl f) = inl (record {
  above = omega (arith, f.above);
  below = f.below;
  holds = f.holds;
  least = Absent-step m v lo r here f.least;
})
Finds-step m v lo hi r here (inr s) =
    inr (record { is_not_found = s.is_not_found; absent = Absent-step m v lo hi here s.absent })

same-eq_false : (a b : Bool) → same a b ≡ false → a ≢ b
same-eq_false a b h e = ground arith

module _ {m : BitMap} (valid : IsBitMap m) (v : Bool) where
  scan-Finds :
      (rounds lo hi : ℕ)
      → lo + rounds ≡ hi
      → hi ≤ m.byte_count * 8
      → (r : ℕ) × (scan rounds m v lo ≡ ok r) × Finds m v lo hi r
  unfolding scan
  scan-Finds zero lo hi e h = (
    not_found,
    refl,
    inr (record { is_not_found = refl; absent = λ j p q. absurd (omega arith) }),
  )
  scan-Finds (suc rounds) lo hi e h =
      let (r, returns, finds) = scan-Finds rounds (lo + 1) hi (omega arith) h in
      rw (get-bit_at valid lo (omega arith)) (elim (Bool-cases (same (bit_at m lo) v)) [
        | inl hit ↦ (
          lo,
          rw hit,
          inl (record {
            above = omega arith;
            below = omega arith;
            holds = same→eq _ _ hit;
            least = λ j p q. absurd (omega arith);
          }),
        )
        | inr miss ↦ (r, rw miss returns, Finds-step m v lo hi r (same-eq_false _ _ miss) finds)
      ])

  -- getIndexOf looks at the indices from `start` to `byteCount`, the end included, and at no other:
  -- it returns the first one that holds `value`, and -1 if there is none.
  pub get_index_of_from-Finds :
      (start : ℕ)
      → 0 < m.byte_count
      → start ≤ m.byte_count
      → start < 2 ^ 63
      → (r : ℕ) × (get_index_of_from m v start ≡ ok r) × Finds m v start (m.byte_count + 1) r
  unfolding get_index_of_from
  get_index_of_from-Finds start some_bytes inside small = rw (lt→leb (2 ^ 63) start small) (
      scan-Finds (m.byte_count * 1 + 1 - start) start (m.byte_count + 1) (omega arith)
        (omega arith))
