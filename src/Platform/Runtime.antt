-- ===== src/Platform/Runtime.antt =====
-- The run-time support of the compiler (core/tachyon.platform/x86_common/cxx.c): the tables of
-- constructors and destructors, functions to call at the end, and the guards of local statics.
pub mod Finalize
mod Tables
mod Tests
use tachyon.Base.{
  ℕ, zero, suc, ◌+◌, ◌-◌, ◌*◌, ◌/◌, ◌%◌, ◌^◌, ◌≤◌, ◌<◌, min, bit_and, bit_or, ◌≡◌, refl, sym, ap,
  ◌∙◌, ◌≢◌, ◌↔◌, ◌⊎◌, inl, inr, Bool, true, false, not, ◌&&◌, ◌||◌, Option, none, some, List, [],
  ◌∷◌, ◌++◌, map, arith, ltb, leb, ◌==◌, if◌then◌else◌, ltb→lt, lt→ltb, le→ltb, leb→le, le→leb,
  lt→leb, ==_iff, same, same→eq, Bool-cases, Option-cases, passes_below, passes_below_sound, length,
  get_elem?, get_or, set, take, drop, replicate, All, length-append, length-set, length-replicate,
  get_or-set, get_or-replicate, get_or-replicate_lt, get_or_ext, All-set, All-get_or, All-replicate,
  Outcome, ok, fatal, out_of_fuel, ◌>>=◌, ◌>>◌, kassert, >>=-eq-ok,
}
use tachyon.Base.Bits.{word}

abbrev pub max_atexit_funcs : ℕ
max_atexit_funcs = 512

pub record AtExit : Type 0 where
  pub dt : ℕ
  pub arg : ℕ
  pub dso : ℕ

-- The table up to __cxa_atexit_count, and the result 0 or -1 of int.
unfoldable pub cxa_atexit : AtExit → List AtExit → List AtExit × ℕ
cxa_atexit f funcs =
    if leb max_atexit_funcs (length funcs) then (funcs, 2 ^ 32 - 1) else (funcs ++ (f ∷ []), 0)

abbrev pub no_func : AtExit
no_func = record { dt = 0; arg = 0; dso = 0 }

-- The loop of __cxa_finalize with `i` entries to go: the calls, a function with its argument.
unfoldable pub finalize_from : ℕ → ℕ → List AtExit → List (ℕ × ℕ)
finalize_from zero dt funcs = []
finalize_from (suc i) dt funcs =
    let f = get_or funcs i no_func in
    let rest = finalize_from i dt funcs in
    if not (f.dt == 0) && ((dt == 0) || (dt == f.dt)) then (f.dt, f.arg) ∷ rest else rest

unfoldable pub cxa_finalize : ℕ → List AtExit → List (ℕ × ℕ)
cxa_finalize dt funcs = finalize_from (length funcs) dt funcs

-- The first byte of a guard.
abbrev pub guard_acquire : ℕ → ℕ
guard_acquire g = if g == 0 then 1 else 0

abbrev pub guard_release : ℕ → ℕ
guard_release g = 1

abbrev pub guard_abort : ℕ → ℕ
guard_abort g = g

-- The loops of __init_cxx and __cleanup_cxx over a table of functions between two addresses: the
-- functions that are called. `mem` is the memory.
unfoldable pub call_table : ℕ → (ℕ → ℕ) → ℕ → ℕ → Outcome (List ℕ)
call_table zero mem ct end = if ltb ct end then out_of_fuel else ok []
call_table (suc fuel) mem ct end =
    let rest = call_table fuel mem (ct + 8) end in
    if ltb ct end then (rest >>= λ calls. ok (mem ct ∷ calls)) else ok []

-- abort() stops the kernel.
abbrev pub cxa_pure_virtual : Outcome (Unit {0})
cxa_pure_virtual = fatal
