-- ===== src/Memory/MemoryHelper/Copy.antt =====
-- Where MemoryHelper::copy and move (core/tachyon.memory/x86_common/MemoryHelper.cc) copy a region.
use tachyon.Base.{
  ℕ, zero, suc, ◌+◌, ◌-◌, ◌≤◌, ◌<◌, ◌≡◌, ◌∙◌, ◌⊎◌, inl, inr, true, false, ◌&&◌, ◌||◌, arith, ltb,
  leb, ◌==◌, if◌then◌else◌, Bool-cases,
}
use tachyon.Memory.MemoryHelper.{store_byte, move_up, move_down, copy, overlapping, move_bytes}

-- The memory after a faithful copy.
unfoldable pub copied : ℕ → ℕ → ℕ → (ℕ → ℕ) → ℕ → ℕ
copied source dest n mem x =
    if leb dest x && ltb x (dest + n) then mem (source + (x - dest)) else mem x

move_up-copied :
    (n source dest : ℕ) (mem : ℕ → ℕ) (x : ℕ)
    → (dest ≤ source) ⊎ (source + n ≤ dest)
    → move_up n source dest mem x ≡ copied source dest n mem x
unfolding move_up copied
move_up-copied zero source dest mem x apart = ground arith
move_up-copied (suc n) source dest mem x apart =
    let next =
      move_up-copied n (source + 1) (dest + 1) (store_byte dest (mem source) mem) x
        (elim apart [ inl h ↦ inl (omega arith) | inr h ↦ inr (omega arith) ]) in
    next ∙ step
  where
    step :
        (if leb (dest + 1) x && ltb x (dest + 1 + n)
          then store_byte dest (mem source) mem (source + 1 + (x - (dest + 1)))
          else store_byte dest (mem source) mem x)
        ≡ (if leb dest x && ltb x (dest + suc n) then mem (source + (x - dest)) else mem x)
    step = elim (Bool-cases (x == dest)) [
      | inl h ↦ let here : source + (x - dest) ≡ source = ground arith in rw here (ground arith)
      | inr h ↦ elim (Bool-cases (leb (dest + 1) x)) [
        | inl above ↦
            let there : source + 1 + (x - (dest + 1)) ≡ source + (x - dest) = ground arith in
            rw there (ground arith)
        | inr below ↦ ground arith
      ]
    ]

move_down-copied :
    (n source dest : ℕ) (mem : ℕ → ℕ) (x : ℕ)
    → (source ≤ dest) ⊎ (dest + n ≤ source)
    → move_down n (source + n - 1) (dest + n - 1) mem x ≡ copied source dest n mem x
unfolding move_down copied
move_down-copied zero source dest mem x apart = ground arith
move_down-copied (suc n) source dest mem x apart =
    let s : source + suc n - 1 ≡ source + n = omega arith in
    let d : dest + suc n - 1 ≡ dest + n = omega arith in
    let next =
      move_down-copied n source dest (store_byte (dest + n) (mem (source + n)) mem) x
        (elim apart [ inl h ↦ inl (omega arith) | inr h ↦ inr (omega arith) ]) in
    rw (s, d) (next ∙ step)
  where
    step :
        (if leb dest x && ltb x (dest + n)
          then store_byte (dest + n) (mem (source + n)) mem (source + (x - dest))
          else store_byte (dest + n) (mem (source + n)) mem x)
        ≡ (if leb dest x && ltb x (dest + suc n) then mem (source + (x - dest)) else mem x)
    step = elim (Bool-cases (x == dest + n)) [
      | inl h ↦ let here : source + (x - dest) ≡ source + n = ground arith in rw here (ground arith)
      | inr h ↦ ground arith
    ]

-- copy is faithful to a destination below the source, and to one behind the region.
pub copy-copied :
    (source dest n : ℕ) (mem : ℕ → ℕ) (x : ℕ)
    → (dest ≤ source) ⊎ (source + n ≤ dest)
    → copy source dest n mem x ≡ copied source dest n mem x
copy-copied source dest zero mem x apart = unfold copy copied in ground arith
copy-copied source dest (suc n) mem x apart =
    let some_bytes : (suc n == 0) ≡ false = ground arith in
    unfold copy in rw some_bytes (move_up-copied (suc n) source dest mem x apart)

-- move is faithful between regions that are apart from each other, and to a destination below the
-- source that shares more than one byte with it; between other regions that overlap it picks the
-- direction that overwrites bytes before they are read.
pub move_bytes-copied :
    (source dest n : ℕ) (mem : ℕ → ℕ) (x : ℕ)
    → (source + n ≤ dest) ⊎ ((dest + n ≤ source) ⊎ ((dest < source) × (source + 1 < dest + n)))
    → move_bytes source dest n mem x ≡ copied source dest n mem x
unfolding move_bytes overlapping
move_bytes-copied source dest zero mem x apart = unfold copied in ground arith
move_bytes-copied source dest (suc n) mem x (inl behind) =
    let some_bytes : (suc n == 0) ≡ false = ground arith in
    let apart_test : ((ltb source dest && ltb dest (source + suc n - 1))
          || (ltb dest source && ltb source (dest + suc n - 1)))
        ≡ false =
      ground arith in
    rw (some_bytes, apart_test) (move_down-copied (suc n) source dest mem x (inl (omega arith)))
move_bytes-copied source dest (suc n) mem x (inr (inl before)) =
    let some_bytes : (suc n == 0) ≡ false = ground arith in
    let apart_test : ((ltb source dest && ltb dest (source + suc n - 1))
          || (ltb dest source && ltb source (dest + suc n - 1)))
        ≡ false =
      ground arith in
    rw (some_bytes, apart_test) (move_down-copied (suc n) source dest mem x (inr before))
move_bytes-copied source dest (suc n) mem x (inr (inr (below, shares))) =
    let some_bytes : (suc n == 0) ≡ false = ground arith in
    let overlap_test : ((ltb source dest && ltb dest (source + suc n - 1))
          || (ltb dest source && ltb source (dest + suc n - 1)))
        ≡ true =
      ground arith in
    rw (some_bytes, overlap_test) (move_up-copied (suc n) source dest mem x (inl (omega arith)))
