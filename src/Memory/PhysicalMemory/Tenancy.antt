-- ===== src/Memory/PhysicalMemory/Tenancy.antt =====
-- Allocation and release together: nothing is handed out twice, and what is given back is free.
use tachyon.Base.{
  ℕ, ◌+◌, ◌/◌, ◌%◌, ◌≤◌, ◌<◌, ◌≡◌, ◌⊎◌, inl, inr, Bool, true, false, Outcome, ok, arith,
}
use mathlib.Core.Path.{subst}
use tachyon.Memory.PhysicalMemory.{PhysicalMemory, page_count, try_allocate, allocate_fixed, free}
use tachyon.Memory.PhysicalMemory.Runs.{used, mark-Marked}
use tachyon.Memory.PhysicalMemory.TryAllocate.{
  IsValid, Taken, Refused, Tried, taken, refused, try_allocate-Tried,
}

pub Tried-Taken :
    (pm pm' : PhysicalMemory) (i n : ℕ) {r : Outcome (PhysicalMemory × Bool)}
    → Tried pm i n r
    → r ≡ ok (pm', true)
    → Taken pm i n pm'
Tried-Taken pm pm' i n (taken pm1 e t) h = let eq : pm1 ≡ pm' = cc in subst (Taken pm i n) eq t
Tried-Taken pm pm' i n (refused e why) h = cc

module _ {pm pm' : PhysicalMemory} (valid : IsValid pm) (phys length : ℕ)
    (success : try_allocate phys length pm ≡ ok (pm', true)) where
  got : Taken pm (phys / 4096) (page_count length) pm'
  got = Tried-Taken pm pm' _ _ (try_allocate-Tried valid phys length) success

  -- free undoes a successful tryAllocate: every page of the memory is as it was before it.
  pub free-try_allocate :
      (pm'' : PhysicalMemory) × (free phys length pm' ≡ ok pm'')
      × ((i : ℕ) → used pm'' i ≡ used pm i)
  unfolding free
  free-try_allocate =
      let t = got in
      let (pm'', returns, back) =
        mark-Marked (page_count length) (phys / 4096) false pm' t.marked.valid
          (omega (arith, t.inside, t.marked.same_size)) in
      (pm'', returns, λ i. ground (arith, back.bits i, t.marked.bits i, t.was_free i))

  -- While a run is allocated, no attempt on a run that shares a page with it succeeds.
  pub try_allocate_exclusive :
      (phys2 length2 i : ℕ)
      → phys / 4096 ≤ i
      → i < phys / 4096 + page_count length
      → phys2 / 4096 ≤ i
      → i < phys2 / 4096 + page_count length2
      → try_allocate phys2 length2 pm' ≡ ok (pm', false)
  try_allocate_exclusive phys2 length2 i lo hi lo2 hi2 =
      elim (try_allocate-Tried got.marked.valid phys2 length2) [
        | taken pm'' e t ↦ absurd (contradiction t)
        | refused e why ↦ e
      ]
    where
      contradiction :
          {pm'' : PhysicalMemory} → Taken pm' (phys2 / 4096) (page_count length2) pm'' → ⊥
      contradiction t = ground (arith, got.marked.bits i, t.was_free i lo2 hi2)

-- allocateFixed at a page address: the address and the run taken, or 0 and nothing changed.
pub allocate_fixed_lem :
    (pm : PhysicalMemory) (phys length : ℕ)
    → IsValid pm
    → phys % 4096 ≡ 0
    → ((pm' : PhysicalMemory) × (allocate_fixed phys length pm ≡ ok (pm', phys))
        × Taken pm (phys / 4096) (page_count length) pm')
      ⊎ ((allocate_fixed phys length pm ≡ ok (pm, 0))
          × Refused pm (phys / 4096) (page_count length))
unfolding allocate_fixed
allocate_fixed_lem pm phys length valid aligned =
    rw aligned (elim (try_allocate-Tried valid phys length) [
      | taken pm' e t ↦ inl (pm', rw e, t)
      | refused e why ↦ inr (rw e, why)
    ])
