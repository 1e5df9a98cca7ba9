-- ===== src/Memory/PhysicalMemory/Runs.antt =====
-- Runs of pages: what `mark` changes, and what `all_free` decides.
use tachyon.Base.{
  ℕ, zero, suc, ◌+◌, ◌*◌, ◌≤◌, ◌<◌, ◌≡◌, refl, ◌∙◌, ◌⊎◌, Bool, true, false, ◌&&◌, leb, ltb,
  if◌then◌else◌, ok, arith, Bool-cases, inl, inr,
}
use tachyon.Collections.BitMap.{bit_at, with_bit}
use tachyon.Collections.BitMap.Laws.{
  IsBitMap, get-bit_at, assign-with_bit, with_bit-IsBitMap, bit_at-with_bit, byte_count-with_bit,
}
use tachyon.Memory.PhysicalMemory.{PhysicalMemory, mark, all_free}

-- The number of pages that the bitmap covers.
abbrev pub pages : PhysicalMemory → ℕ
pages pm = pm.sp_bitmap.byte_count * 8

-- Whether page `i` is in use.
unfoldable pub used : PhysicalMemory → ℕ → Bool
used pm i = bit_at pm.sp_bitmap i

abbrev pub within : ℕ → ℕ → ℕ → Bool
within index count i = leb index i && ltb i (index + count)

-- `pm'` is `pm` but for the pages of one run, which hold `value`.
pub record Marked (pm : PhysicalMemory) (index count : ℕ) (value : Bool) (pm' : PhysicalMemory)
    : Type 0 where
  pub valid : IsBitMap pm'.sp_bitmap
  pub same_size : pm'.sp_bitmap.byte_count ≡ pm.sp_bitmap.byte_count
  pub bits : (i : ℕ) → used pm' i ≡ (if within index count i then value else used pm i)

pub Marked-step :
    (pm pm' : PhysicalMemory) (index count : ℕ) (value : Bool)
    → IsBitMap pm.sp_bitmap
    → index < pages pm
    → Marked (record { sp_bitmap = with_bit pm.sp_bitmap index value }) (index + 1) count value pm'
    → Marked pm index (suc count) value pm'
unfolding used
Marked-step pm pm' index count value valid inside rest = record {
  valid = rest.valid;
  same_size = rest.same_size ∙ byte_count-with_bit valid index value;
  bits = λ i. ground (arith, rest.bits i, bit_at-with_bit valid index i value inside);
}

pub mark-Marked :
    (count index : ℕ) (value : Bool) (pm : PhysicalMemory)
    → IsBitMap pm.sp_bitmap
    → index + count ≤ pages pm
    → (pm' : PhysicalMemory) × (mark count index value pm ≡ ok pm')
      × Marked pm index count value pm'
unfolding mark
mark-Marked zero index value pm valid inside =
    (pm, refl, record { valid = valid; same_size = refl; bits = λ i. ground arith })
mark-Marked (suc count) index value pm valid inside =
    let (pm', returns, marked) =
      mark-Marked count (index + 1) value (record { sp_bitmap = with_bit pm.sp_bitmap index value })
        (with_bit-IsBitMap valid index value)
        (omega (arith, byte_count-with_bit valid index value)) in
    (
      pm',
      rw (assign-with_bit valid index value (omega arith)) returns,
      Marked-step pm pm' index count value valid (omega arith) marked,
    )

-- No page of the run is in use.
abbrev pub Free : PhysicalMemory → ℕ → ℕ → Type 0
Free pm index count = (i : ℕ) → index ≤ i → i < index + count → used pm i ≡ false

Free-step :
    (pm : PhysicalMemory) (index count : ℕ)
    → used pm index ≡ false
    → Free pm (index + 1) count
    → Free pm index (suc count)
Free-step pm index count here rest i p q = elim (Bool-cases (leb (index + 1) i)) [
  | inl e ↦ rest i (ground arith) (omega arith)
  | inr e ↦ let eq : index ≡ i = ground arith in rw eq at here
]

-- Either the whole run is free and the test says so, or a page of it is in use.
abbrev pub FreeTest : PhysicalMemory → ℕ → ℕ → Bool → Type 0
FreeTest pm index count b =
    ((b ≡ true) × Free pm index count)
    ⊎ ((b ≡ false) × ((i : ℕ) × (index ≤ i) × (i < index + count) × (used pm i ≡ true)))

FreeTest-step :
    (pm : PhysicalMemory) (index count : ℕ) (b : Bool)
    → used pm index ≡ false
    → FreeTest pm (index + 1) count b
    → FreeTest pm index (suc count) b
FreeTest-step pm index count b here (inl (e, f)) = inl (e, Free-step pm index count here f)
FreeTest-step pm index count b here (inr (e, (i, lo, hi, u))) =
    inr (e, (i, omega arith, omega arith, u))

pub all_free-FreeTest :
    (count index : ℕ) (pm : PhysicalMemory)
    → IsBitMap pm.sp_bitmap
    → index + count ≤ pages pm
    → (b : Bool) × (all_free count index pm ≡ ok b) × FreeTest pm index count b
unfolding all_free used
all_free-FreeTest zero index pm valid inside =
    (true, refl, inl (refl, λ i p q. absurd (omega arith)))
all_free-FreeTest (suc count) index pm valid inside =
    let (b, returns, tested) = all_free-FreeTest count (index + 1) pm valid (omega arith) in
    rw (get-bit_at valid index (omega arith)) (elim (Bool-cases (bit_at pm.sp_bitmap index)) [
      | inl hit ↦ (false, rw hit, inr (refl, (index, omega arith, omega arith, hit)))
      | inr miss ↦ (b, rw miss returns, FreeTest-step pm index count b miss tested)
    ])
