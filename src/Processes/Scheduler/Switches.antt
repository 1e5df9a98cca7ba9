-- ===== src/Processes/Scheduler/Switches.antt =====
-- What Scheduler::schedule does (core/tachyon.processes/Scheduler.cc), over the items that the
-- iterators pass.
use mathlib.Core.Path.{subst}
use tachyon.Base.{
  ℕ, zero, suc, ◌+◌, ◌<◌, ◌≡◌, refl, ◌⊎◌, inl, inr, Bool, true, false, Option, none, some, List, [],
  ◌∷◌, ◌++◌, arith, if◌then◌else◌, All, ok, out_of_fuel, ◌>>=◌, >>=-eq-ok,
}
use tachyon.Collections.LinkedList.{LinkedList, traverse, iterator, deref, advance, at_end}
use tachyon.Processes.Process.{Thread, Process}
use tachyon.Processes.Scheduler.{
  Scheduler, ready_from, find_ready_thread, switched, visit, schedule_from, schedule,
}

module _ {ℓ} {A : Type ℓ} where
  abbrev pub first : List A → Option A
  first [] = none
  first (x ∷ xs) = some x

  -- A traversal that has returned, seen from its start.
  pub traverse-start :
      (current : ℕ) (l : LinkedList A) (items : List A)
      → traverse 0 current l ≡ ok items
      → (at_end current ≡ true) × (items ≡ [])
  unfolding traverse
  traverse-start current l items run = ended (at_end current) run
    where
      ended : (b : Bool) → (if b then ok [] else out_of_fuel) ≡ ok items → (b ≡ true) × (items ≡ [])
      ended true e = (refl, cc)
      ended false e = cc

  pub traverse-round :
      (fuel current : ℕ) (l : LinkedList A) (items : List A)
      → traverse (suc fuel) current l ≡ ok items
      → ((at_end current ≡ true) × (items ≡ []))
        ⊎ ((at_end current ≡ false)
            × ((rest : List A) × (traverse fuel (advance current l) l ≡ ok rest)
                × (items ≡ deref current l ∷ rest)))
  unfolding traverse
  traverse-round fuel current l items run = round (at_end current) run
    where
      round :
          (b : Bool)
          → (if b
              then ok []
              else (traverse fuel (advance current l) l >>= λ rest. ok (deref current l ∷ rest)))
            ≡ ok items
          → ((b ≡ true) × (items ≡ []))
            ⊎ ((b ≡ false)
                × ((rest : List A) × (traverse fuel (advance current l) l ≡ ok rest)
                    × (items ≡ deref current l ∷ rest)))
      round true e = inl (refl, cc)
      round false e =
          let (rest, returned, last) =
            >>=-eq-ok (traverse fuel (advance current l) l) (λ rest. ok (deref current l ∷ rest))
              e in
          inr (refl, (rest, returned, cc))

-- The thread that findReadyThread returns is the first one, since every thread is ready.
ready_first :
    (fuel current : ℕ) (l : LinkedList Thread) (items : List Thread)
    → traverse fuel current l ≡ ok items
    → ready_from fuel current l ≡ ok (first items)
unfolding ready_from
ready_first zero current l items run =
    let (end, empty) = traverse-start current l items run in rw (end, empty) refl
ready_first (suc fuel) current l items run = elim (traverse-round fuel current l items run) [
  | inl (end, empty) ↦ rw (end, empty) refl
  | inr (more, (rest, returned, is_cons)) ↦ rw (more, is_cons) refl
]

-- The threads of a process are those that an iterator passes.
module _ (fuel : ℕ) (threads_of : Process → List Thread) where
  abbrev pub Lists : Option Process → Type 0
  Lists none = Unit
  Lists (some p) = traverse fuel (iterator p.threads) p.threads ≡ ok (threads_of p)

  -- The thread that is switched to for a pointer to a process.
  abbrev pub call_for : Option Process → List Thread
  call_for none = []
  call_for (some p) = switched (first (threads_of p))

  abbrev pub calls_for : List (Option Process) → List Thread
  calls_for [] = []
  calls_for (p ∷ ps) = call_for p ++ calls_for ps

  -- The calls for a number of priorities, from `i` on.
  abbrev pub calls_from : (ℕ → List (Option Process)) → ℕ → ℕ → List Thread
  calls_from ps zero i = []
  calls_from ps (suc count) i = calls_for (ps i) ++ calls_from ps count (i + 1)

  finds :
      (p : Option Process)
      → Lists p
      → (thr : Option Thread) × (find_ready_thread fuel p ≡ ok thr) × (switched thr ≡ call_for p)
  unfolding find_ready_thread
  finds none listed = (none, refl, refl)
  finds (some p) listed = (
    first (threads_of p),
    ready_first fuel (iterator p.threads) p.threads (threads_of p) listed,
    refl,
  )

  visits :
      (rounds current : ℕ) (l : LinkedList (Option Process)) (items : List (Option Process))
      → traverse rounds current l ≡ ok items
      → All Lists items
      → visit fuel rounds current l ≡ ok (calls_for items)
  unfolding visit
  visits zero current l items run listed =
      let (end, empty) = traverse-start current l items run in rw (end, empty) refl
  visits (suc rounds) current l items run listed =
      elim (traverse-round rounds current l items run) [
        | inl (end, empty) ↦ rw (end, empty) refl
        | inr (more, (rest, returned, is_cons)) ↦
            let all = subst (All Lists) is_cons listed in
            let (thr, found, call) = finds (deref current l) all.0 in
            rw (visits rounds (advance current l) l rest returned all.1, more, found, is_cons, call)
              refl
      ]

  schedules :
      (count i : ℕ) (s : Scheduler) (ps : ℕ → List (Option Process))
      → ((k : ℕ)
          → k < i + count
          → (traverse fuel (iterator (s.processes k)) (s.processes k) ≡ ok (ps k))
            × All Lists (ps k))
      → schedule_from fuel count i s ≡ ok (calls_from ps count i)
  unfolding schedule_from
  schedules zero i s ps listed = refl
  schedules (suc count) i s ps listed =
      let here = listed i (omega arith) in
      rw
        (
          visits fuel (iterator (s.processes i)) (s.processes i) (ps i) here.0 here.1,
          schedules count (i + 1) s ps (λ k low. listed k (omega arith)),
        )
        refl

  -- Where the iterators over the five lists and over the threads of their processes return, schedule
  -- returns: it calls switchTo for each process with a thread, the priorities from highest to lowest
  -- and each list in order, for the first thread in the list of the process. No thread but that is
  -- ever switched to.
  pub schedule-calls :
      (s : Scheduler) (ps : ℕ → List (Option Process))
      → ((k : ℕ)
          → k < 5
          → (traverse fuel (iterator (s.processes k)) (s.processes k) ≡ ok (ps k))
            × All Lists (ps k))
      → schedule fuel s ≡ ok (calls_from ps 5 0)
  unfolding schedule
  schedule-calls s ps listed = schedules 5 0 s ps (λ k low. listed k low)
