-- ===== src/Platform/Runtime/Finalize.antt =====
-- __cxa_atexit and __cxa_finalize (core/tachyon.platform/x86_common/cxx.c).
use tachyon.Base.{
  ℕ, zero, suc, ◌-◌, ◌^◌, ◌≤◌, ◌<◌, ◌≡◌, refl, ◌∙◌, ◌≢◌, ◌⊎◌, inl, inr, false, List, [], ◌∷◌, ◌++◌,
  arith, leb, ◌==◌, Bool-cases, length, get_or, length-append,
}
use tachyon.Platform.Runtime.{
  AtExit, no_func, max_atexit_funcs, cxa_atexit, finalize_from, cxa_finalize,
}

get_or-append :
    (fs : List AtExit) (f : AtExit) (i : ℕ)
    → i < length fs
    → get_or (fs ++ (f ∷ [])) i no_func ≡ get_or fs i no_func
get_or-append [] f i h = absurd (omega arith)
get_or-append (g ∷ fs) f zero h = refl
get_or-append (g ∷ fs) f (suc i) h = get_or-append fs f i (omega arith)

get_or-last : (fs : List AtExit) (f : AtExit) → get_or (fs ++ (f ∷ [])) (length fs) no_func ≡ f
get_or-last [] f = refl
get_or-last (g ∷ fs) f = get_or-last fs f

finalize_from-append :
    (i dt : ℕ) (fs : List AtExit) (f : AtExit)
    → i ≤ length fs
    → finalize_from i dt (fs ++ (f ∷ [])) ≡ finalize_from i dt fs
unfolding finalize_from
finalize_from-append zero dt fs f h = refl
finalize_from-append (suc i) dt fs f h =
    rw (get_or-append fs f i (omega arith), finalize_from-append i dt fs f (omega arith))

-- __cxa_atexit of a function that is not NULL keeps a table of at most 512 entries within 512: with
-- fewer than 512 it succeeds, and __cxa_finalize(NULL) then calls the new function first and the
-- older ones as before; with 512 it returns -1 and changes nothing.
pub cxa_finalize-cxa_atexit :
    (f : AtExit) (fs : List AtExit)
    → f.dt ≢ 0
    → length fs ≤ max_atexit_funcs
    → (length (cxa_atexit f fs).0 ≤ max_atexit_funcs)
      × ((length fs < max_atexit_funcs)
            × ((cxa_atexit f fs).1 ≡ 0)
            × (cxa_finalize 0 (cxa_atexit f fs).0 ≡ (f.dt, f.arg) ∷ cxa_finalize 0 fs)
          ⊎ ((length fs ≡ max_atexit_funcs)
              × ((cxa_atexit f fs).1 ≡ 2 ^ 32 - 1)
              × ((cxa_atexit f fs).0 ≡ fs)))
unfolding cxa_atexit cxa_finalize
cxa_finalize-cxa_atexit f fs some_function fits = elim (Bool-cases (leb 512 (length fs))) [
  | inl full ↦ rw full (fits, inr (ground arith, refl, refl))
  | inr room ↦
      let size : length (fs ++ (f ∷ [])) ≡ suc (length fs) =
        length-append fs (f ∷ []) ∙ omega arith in
      let called : (f.dt == 0) ≡ false = ground arith in
      rw room (ground (arith, size), inl (ground arith, refl, rw size (first called)))
]
  where
    first :
        (f.dt == 0) ≡ false
        → finalize_from (suc (length fs)) 0 (fs ++ (f ∷ []))
          ≡ (f.dt, f.arg) ∷ finalize_from (length fs) 0 fs
    first called =
        unfold finalize_from in
        rw (get_or-last fs f, called, finalize_from-append (length fs) 0 fs f (omega arith))
