-- ===== src/Platform/Runtime/Tests.antt =====
-- A table of one function.
use tachyon.Base.{ℕ, ◌+◌, ◌-◌, ◌^◌, ◌≤◌, ◌<◌, ◌≡◌, ◌⊎◌, [], ◌∷◌, arith, length}
use tachyon.Platform.Runtime.{AtExit, max_atexit_funcs, cxa_atexit, cxa_finalize}
use tachyon.Platform.Runtime.Finalize.{cxa_finalize-cxa_atexit}

abbrev function : ℕ → AtExit
function n = record { dt = n; arg = n + 1; dso = 0 }

cxa_finalize-cxa_atexit_example :
    (length (cxa_atexit (function 7) (function 5 ∷ [])).0 ≤ max_atexit_funcs)
    × ((length (function 5 ∷ []) < max_atexit_funcs)
          × ((cxa_atexit (function 7) (function 5 ∷ [])).1 ≡ 0)
          × (cxa_finalize 0 (cxa_atexit (function 7) (function 5 ∷ [])).0
              ≡ (7, 7 + 1) ∷ cxa_finalize 0 (function 5 ∷ []))
        ⊎ ((length (function 5 ∷ []) ≡ max_atexit_funcs)
            × ((cxa_atexit (function 7) (function 5 ∷ [])).1 ≡ 2 ^ 32 - 1)
            × ((cxa_atexit (function 7) (function 5 ∷ [])).0 ≡ function 5 ∷ [])))
cxa_finalize-cxa_atexit_example =
    cxa_finalize-cxa_atexit (function 7) (function 5 ∷ []) (omega arith) (omega arith)
