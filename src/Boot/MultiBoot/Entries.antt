-- ===== src/Boot/MultiBoot/Entries.antt =====
-- Counting and finding the entries of the memory map (core/tachyon.boot/MultiBoot.cc).
use tachyon.Base.{
  ℕ, zero, suc, ◌+◌, ◌^◌, ◌≤◌, ◌<◌, ◌≡◌, ap, ◌∙◌, true, false, List, [], ◌∷◌, arith, ltb, length,
  take, ok,
}
use tachyon.Base.Bits.{u32}
use tachyon.Boot.MultiBoot.{next_entry, count_from, count_entries, memory_range}

-- Entries of these sizes lie one behind the other from the address on.
abbrev pub Layout : (ℕ → ℕ) → ℕ → List ℕ → Type 0
Layout read32 p [] = Unit
Layout read32 p (s ∷ sizes) = (read32 p ≡ s) × Layout read32 (p + (s + 4)) sizes

unfoldable pub span : List ℕ → ℕ
span [] = 0
span (s ∷ sizes) = s + 4 + span sizes

count_from_lem :
    (fuel : ℕ) (read32 : ℕ → ℕ) (p cnt : ℕ) (sizes : List ℕ)
    → Layout read32 p sizes
    → length sizes < fuel
    → p + span sizes < 2 ^ 64
    → count_from fuel read32 p (p + span sizes) cnt ≡ ok (cnt + length sizes)
unfolding count_from span
count_from_lem zero read32 p cnt sizes layout enough fits = absurd (omega arith)
count_from_lem (suc fuel) read32 p cnt [] layout enough fits =
    let stop : ltb p (p + 0) ≡ false = ground arith in rw stop (ap ok (omega arith))
count_from_lem (suc fuel) read32 p cnt (s ∷ sizes) layout enough fits =
    let go : ltb p (p + (s + 4 + span sizes)) ≡ true = ground arith in
    let next : next_entry read32 p ≡ p + (s + 4) = omega (arith, layout.0, fits) in
    let end : p + (s + 4 + span sizes) ≡ p + (s + 4) + span sizes = omega arith in
    rw (go, next, end)
      (count_from_lem fuel read32 (p + (s + 4)) (cnt + 1) sizes layout.1 (omega arith)
          (omega (arith, fits))
        ∙ ap ok (omega arith))

memory_range_lem :
    (read32 : ℕ → ℕ) (p k : ℕ) (sizes : List ℕ)
    → Layout read32 p sizes
    → k ≤ length sizes
    → p + span sizes < 2 ^ 64
    → memory_range read32 p k ≡ p + span (take k sizes)
unfolding memory_range span
memory_range_lem read32 p zero sizes layout inside fits = omega arith
memory_range_lem read32 p (suc k) [] layout inside fits = absurd (omega arith)
memory_range_lem read32 p (suc k) (s ∷ sizes) layout inside fits =
    let next : next_entry read32 p ≡ p + (s + 4) = omega (arith, layout.0, fits) in
    rw next (
      memory_range_lem read32 (p + (s + 4)) k sizes layout.1 (omega arith) (omega (arith, fits))
      ∙ omega arith)

-- On a memory map that is a sequence of entries, countEntries returns their number, with one round
-- for each entry and one for the end, and MemoryRange finds the start of each.
pub count_entries-memory_range :
    (read32 : ℕ → ℕ) (base k : ℕ) (sizes : List ℕ)
    → Layout read32 base sizes
    → base + span sizes < 2 ^ 32
    → k ≤ length sizes
    → (count_entries (suc (length sizes)) read32 base (span sizes) ≡ ok (length sizes))
      × (memory_range read32 base k ≡ base + span (take k sizes))
unfolding count_entries
count_entries-memory_range read32 base k sizes layout fits inside =
    let end : u32 (base + span sizes) ≡ base + span sizes = omega (arith, fits) in
    (
      rw end (
          count_from_lem (suc (length sizes)) read32 base 0 sizes layout (omega arith)
            (omega (arith, fits))
          ∙ ap ok (omega arith)),
      memory_range_lem read32 base k sizes layout inside (omega (arith, fits)),
    )
