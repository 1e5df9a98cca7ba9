-- ===== src/Processes/Scheduler.antt =====
-- Scheduler (core/tachyon.processes/Scheduler.cc, include/tachyon.processes/Scheduler.h). Five lists
-- of pointers to processes, by priority; a pointer is `none` if it is null. `fuel` bounds the rounds
-- of the iterators. Thread::switchTo is an empty function: schedule goes on behind each call, and its
-- calls are its result.
pub mod Switches
mod Tests
use tachyon.Base.{
  ℕ, zero, suc, ◌+◌, ◌-◌, ◌*◌, ◌/◌, ◌%◌, ◌^◌, ◌≤◌, ◌<◌, min, bit_and, bit_or, ◌≡◌, refl, sym, ap,
  ◌∙◌, ◌≢◌, ◌↔◌, ◌⊎◌, inl, inr, Bool, true, false, not, ◌&&◌, ◌||◌, Option, none, some, List, [],
  ◌∷◌, ◌++◌, map, arith, ltb, leb, ◌==◌, if◌then◌else◌, ltb→lt, lt→ltb, le→ltb, leb→le, le→leb,
  lt→leb, ==_iff, same, same→eq, Bool-cases, Option-cases, passes_below, passes_below_sound, length,
  get_elem?, get_or, set, take, drop, replicate, All, length-append, length-set, length-replicate,
  get_or-set, get_or-replicate, get_or-replicate_lt, get_or_ext, All-set, All-get_or, All-replicate,
  Outcome, ok, fatal, out_of_fuel, ◌>>=◌, ◌>>◌, kassert, >>=-eq-ok,
}
use tachyon.Collections.LinkedList.{LinkedList, make_empty, add, iterator, deref, advance, at_end}
use tachyon.Processes.Process.{Thread, Process, is_ready}

-- Highest and Lowest
abbrev pub highest : ℕ
highest = 0

abbrev pub lowest : ℕ
lowest = 4

pub record Scheduler : Type 0 where
  pub processes : ℕ → LinkedList (Option Process)

-- The constructor.
unfoldable pub make_scheduler : Scheduler → Scheduler
make_scheduler s = record { processes = λ i. make_empty (s.processes i) }

unfoldable pub ready_from : ℕ → ℕ → LinkedList Thread → Outcome (Option Thread)
ready_from zero current l = if at_end current then ok none else out_of_fuel
ready_from (suc fuel) current l =
    let rest = ready_from fuel (advance current l) l in
    if at_end current
    then ok none
    else if is_ready (deref current l)
    then ok (some (deref current l))
    else rest

unfoldable pub find_ready_thread : ℕ → Option Process → Outcome (Option Thread)
find_ready_thread fuel none = ok none
find_ready_thread fuel (some p) = ready_from fuel (iterator p.threads) p.threads

-- The call of switchTo, unless there is no thread.
abbrev pub switched : Option Thread → List Thread
switched none = []
switched (some t) = t ∷ []

-- The loop over the processes of one priority; `bound` is the fuel of each findReadyThread.
unfoldable pub visit : ℕ → ℕ → ℕ → LinkedList (Option Process) → Outcome (List Thread)
visit bound zero current l = if at_end current then ok [] else out_of_fuel
visit bound (suc fuel) current l =
    let rest = visit bound fuel (advance current l) l in
    if at_end current
    then ok []
    else find_ready_thread bound (deref current l) >>= λ thr.
        rest >>= λ calls. ok (switched thr ++ calls)

-- The loop over `count` priorities from `i` on.
unfoldable pub schedule_from : ℕ → ℕ → ℕ → Scheduler → Outcome (List Thread)
schedule_from fuel zero i s = ok []
schedule_from fuel (suc count) i s = do
  calls ← visit fuel fuel (iterator (s.processes i)) (s.processes i)
  later ← schedule_from fuel count (i + 1) s
  ok (calls ++ later)

unfoldable pub schedule : ℕ → Scheduler → Outcome (List Thread)
schedule fuel s = schedule_from fuel (lowest + 1) highest s

-- `node` is the address of the new node of the list.
unfoldable pub add_process : ℕ → Option Process → ℕ → Scheduler → Scheduler
add_process node proc prio s = record {
  processes = λ i. if i == prio then add node proc (s.processes prio) else s.processes i;
}
