-- ===== src/Memory/BreakPageAllocator/Break.antt =====
-- Where BreakPageAllocator::increase and decrease (core/tachyon.memory/BreakPageAllocator.cc) leave
-- the break.
use native.Mathlib.Nat.{suc-mul, div-mul-le_self}
use mathlib.Core.Path.{subst}
use tachyon.Base.{
  ℕ, zero, suc, ◌+◌, ◌-◌, ◌*◌, ◌/◌, ◌%◌, ◌^◌, ◌≤◌, ◌<◌, ◌≡◌, sym, ap, ◌∙◌, ◌⊎◌, inl, inr, arith,
  ltb, Bool-cases, ok, >>=-eq-ok,
}
use tachyon.Base.Bits.{word, add64, sub64}
use tachyon.Memory.PhysicalMemory.{allocate_aligned, free}
use tachyon.Memory.TempMap.{Machine}
use tachyon.Memory.VirtualMemory.{map_page, unmap, get_mapped_addr}
use tachyon.Memory.BreakPageAllocator.{
  BreakPageAllocator, map_flags, add_pages, increase, drop_pages, pages_to_drop, decrease,
}
use tachyon.Memory.BreakPageAllocator.Source.{IsValid}

-- The allocator with its break moved.
abbrev pub at_break : BreakPageAllocator → ℕ → BreakPageAllocator
at_break a b = record a { brk = b }

add_pages-at_break :
    (fuel space n : ℕ) (a : BreakPageAllocator) (m : Machine) {r : BreakPageAllocator × Machine}
    → a.brk + n * a.ps < 2 ^ 64
    → add_pages fuel space n a m ≡ ok r
    → r.0 ≡ at_break a (a.brk + n * a.ps)
unfolding add_pages
add_pages-at_break fuel space zero a m {r} fits h =
    let same_break : a.brk ≡ a.brk + 0 * a.ps = omega arith in
    let e : (a, m) ≡ r = ground arith in
    ap (λ (t : BreakPageAllocator × Machine). t.0) (sym e) ∙ ap (at_break a) same_break
add_pages-at_break fuel space (suc n) a m {r} fits h =
    let ((pm, phys), allocated, h1) = >>=-eq-ok (allocate_aligned fuel a.ps a.ps m.physical) _ h in
    let (m', mapped, h2) =
      >>=-eq-ok (map_page fuel space a.brk phys (map_flags a) (record m { physical = pm })) _ h1 in
    let next : add64 a.brk a.ps ≡ a.brk + a.ps = omega (arith, suc-mul n a.ps) in
    let there : add64 a.brk a.ps + n * a.ps ≡ a.brk + suc n * a.ps =
      omega (arith, suc-mul n a.ps, next) in
    add_pages-at_break fuel space n (at_break a (add64 a.brk a.ps)) m' (omega (arith, fits, there))
      h2
    ∙ ap (at_break a) there

drop_pages-at_break :
    (space n : ℕ) (a : BreakPageAllocator) (m : Machine) {r : BreakPageAllocator × Machine}
    → n * a.ps ≤ a.brk
    → a.brk < 2 ^ 64
    → drop_pages space n a m ≡ ok r
    → r.0 ≡ at_break a (a.brk - n * a.ps)
unfolding drop_pages
drop_pages-at_break space zero a m {r} fits word h =
    let same_break : a.brk ≡ a.brk - 0 * a.ps = omega arith in
    let e : (a, m) ≡ r = ground arith in
    ap (λ (t : BreakPageAllocator × Machine). t.0) (sym e) ∙ ap (at_break a) same_break
drop_pages-at_break space (suc n) a m {r} fits word h =
    let ((m1, phys), looked, h1) = >>=-eq-ok (get_mapped_addr space (sub64 a.brk a.ps) m) _ h in
    let (m2, unmapped, h2) = >>=-eq-ok (unmap space (sub64 a.brk a.ps) m1) _ h1 in
    let (pm, freed, h3) = >>=-eq-ok (free phys a.ps m2.physical) _ h2 in
    let next : sub64 a.brk a.ps ≡ a.brk - a.ps = omega (arith, suc-mul n a.ps) in
    let there : sub64 a.brk a.ps - n * a.ps ≡ a.brk - suc n * a.ps =
      omega (arith, suc-mul n a.ps, next) in
    drop_pages-at_break space n (at_break a (sub64 a.brk a.ps)) (record m2 { physical = pm })
      (omega (arith, fits, next, suc-mul n a.ps)) (omega (arith, next)) h3
    ∙ ap (at_break a) there

moved-IsValid :
    (a : BreakPageAllocator) (b : ℕ)
    → IsValid a
    → a.zone.start ≤ b
    → b ≤ a.zone.end
    → IsValid (at_break a b)
moved-IsValid a b valid above below = record {
  above = above;
  below = below;
  in_space = valid.in_space;
  page = valid.page;
}

-- Whatever increase does to the memory, if it returns the break is where it was with the result 0,
-- or higher by the pages and the result is the break; it lies in the zone.
pub increase-IsValid :
    (fuel space pages : ℕ) (a a' : BreakPageAllocator) (m m' : Machine) (top : ℕ)
    → IsValid a
    → a.brk + pages * a.ps < 2 ^ 64
    → increase fuel space pages a m ≡ ok (a', m', top)
    → IsValid a'
      × (((a' ≡ a) × (top ≡ 0)) ⊎ ((a' ≡ at_break a (a.brk + pages * a.ps)) × (top ≡ a'.brk)))
unfolding increase
increase-IsValid fuel space pages a a' m m' top valid fits h =
    elim (Bool-cases (ltb a.zone.end (a.brk + pages * a.ps))) [
      | inl full ↦
          let e : ok (a, m, 0) ≡ ok (a', m', top) = rw (sum, full) at h in
          let e' : (a, m, 0) ≡ (a', m', top) = ground arith in
          let same_a : a' ≡ a = ap (λ (t : BreakPageAllocator × Machine × ℕ). t.0) (sym e') in
          (
            subst IsValid (sym same_a) valid,
            inl (same_a, ap (λ (t : BreakPageAllocator × Machine × ℕ). t.2) (sym e')),
          )
      | inr room ↦
          let inside : a.brk + pages * a.ps ≤ a.zone.end = ground arith in
          let higher : a.zone.start ≤ a.brk + pages * a.ps = omega (arith, valid.above) in
          let h1 = rw (sum, room) at h in
          let (r, added, h2) = >>=-eq-ok (add_pages fuel space pages a m) _ h1 in
          let e' : (r.0, r.1, (r.0).brk) ≡ (a', m', top) = ground arith in
          let first : r.0 ≡ a' = ap (λ (t : BreakPageAllocator × Machine × ℕ). t.0) e' in
          let moved : a' ≡ at_break a (a.brk + pages * a.ps) =
            sym first ∙ add_pages-at_break fuel space pages a m fits added in
          (
            subst IsValid (sym moved) (moved-IsValid a (a.brk + pages * a.ps) valid higher inside),
            inr (
              moved,
              sym (ap (λ (t : BreakPageAllocator × Machine × ℕ). t.2) e')
                  ∙ ap (λ (t : BreakPageAllocator). t.brk) first,
            ),
          )
    ]
  where
    sum : add64 a.brk (pages * a.ps % 2 ^ 64) ≡ a.brk + pages * a.ps
    sum = omega arith

abbrev held : BreakPageAllocator → ℕ
held a = (a.brk - a.zone.start) / a.ps

-- The guard of decrease, where the length does not exceed the break.
pages_to_drop-lem :
    (pages : ℕ) (a : BreakPageAllocator)
    → IsValid a
    → pages * a.ps ≤ a.brk
    → (pages_to_drop pages a ≡ pages) × (pages * a.ps ≤ a.brk - a.zone.start)
      ⊎ (pages_to_drop pages a ≡ held a) × (a.brk - a.zone.start < pages * a.ps)
unfolding pages_to_drop
pages_to_drop-lem pages a valid fits =
    let less : sub64 a.brk (pages * a.ps % 2 ^ 64) ≡ a.brk - pages * a.ps =
      omega (arith, valid.below, valid.in_space) in
    let size : sub64 a.brk a.zone.start ≡ a.brk - a.zone.start =
      omega (arith, valid.above, valid.below, valid.in_space) in
    elim (Bool-cases (ltb (a.brk - pages * a.ps) a.zone.start)) [
      | inl h ↦ inr (rw (less, h, size), ground arith)
      | inr h ↦ inl (rw (less, h), ground (arith, valid.above))
    ]

-- A length beyond the break wraps round below zero, and the guard does not see it.
pub pages_to_drop_wraps :
    (pages : ℕ) (a : BreakPageAllocator)
    → IsValid a
    → a.brk < pages * a.ps
    → pages * a.ps + a.zone.start ≤ a.brk + 2 ^ 64
    → pages_to_drop pages a ≡ pages
unfolding pages_to_drop
pages_to_drop_wraps pages a valid more wraps = ground (arith, valid.below, valid.in_space)

dropped-IsValid :
    (space n : ℕ) (a a' : BreakPageAllocator) (m m' : Machine)
    → IsValid a
    → n * a.ps ≤ a.brk - a.zone.start
    → drop_pages space n a m ≡ ok (a', m')
    → IsValid a' × (a' ≡ at_break a (a.brk - n * a.ps))
dropped-IsValid space n a a' m m' valid inside h =
    let moved : a' ≡ at_break a (a.brk - n * a.ps) =
      drop_pages-at_break space n a m (omega (arith, inside))
        (omega (arith, valid.below, valid.in_space)) h in
    let above : a.zone.start ≤ a.brk - n * a.ps = omega (arith, inside, valid.above) in
    let below : a.brk - n * a.ps ≤ a.zone.end = omega (arith, valid.below) in
    (subst IsValid (sym moved) (moved-IsValid a (a.brk - n * a.ps) valid above below), moved)

-- If decrease by a length up to the break returns: where the zone holds the pages, the break falls
-- by them; where it holds less, by all whole pages that it holds. The break stays in the zone and
-- is the result.
pub decrease-IsValid :
    (space pages : ℕ) (a a' : BreakPageAllocator) (m m' : Machine) (top : ℕ)
    → IsValid a
    → pages * a.ps ≤ a.brk
    → decrease space pages a m ≡ ok (a', m', top)
    → IsValid a'
      × (top ≡ a'.brk)
      × ((pages * a.ps ≤ a.brk - a.zone.start) × (a' ≡ at_break a (a.brk - pages * a.ps))
          ⊎ (a.brk - a.zone.start < pages * a.ps)
            × (a' ≡ at_break a (a.brk - (a.brk - a.zone.start) / a.ps * a.ps)))
unfolding decrease
decrease-IsValid space pages a a' m m' top valid fits h =
    let (r, dropped, h1) = >>=-eq-ok (drop_pages space (pages_to_drop pages a) a m) _ h in
    let e : (r.0, r.1, (r.0).brk) ≡ (a', m', top) = ground arith in
    let first : r.0 ≡ a' = ap (λ (t : BreakPageAllocator × Machine × ℕ). t.0) e in
    let second : r.1 ≡ m' = ap (λ (t : BreakPageAllocator × Machine × ℕ). t.1) e in
    let last : top ≡ a'.brk =
      sym (ap (λ (t : BreakPageAllocator × Machine × ℕ). t.2) e)
      ∙ ap (λ (t : BreakPageAllocator). t.brk) first in
    let pair : r ≡ (a', m') = ground arith in
    elim (pages_to_drop-lem pages a valid fits) [
      | inl (all, inside) ↦
          let (v, moved) =
            dropped-IsValid space pages a a' m m' valid inside
              (ap (λ (t : ℕ). drop_pages space t a m) (sym all) ∙ dropped ∙ ap ok pair) in
          (v, last, inl (inside, moved))
      | inr (some_left, beyond) ↦
          let (v, moved) =
            dropped-IsValid space (held a) a a' m m' valid
              (div-mul-le_self (a.brk - a.zone.start) a.ps)
              (ap (λ (t : ℕ). drop_pages space t a m) (sym some_left) ∙ dropped ∙ ap ok pair) in
          (v, last, inr (beyond, moved))
    ]
