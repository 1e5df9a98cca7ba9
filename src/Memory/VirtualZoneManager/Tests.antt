-- ===== src/Memory/VirtualZoneManager/Tests.antt =====
-- A table of three zones, and the theorems at it.
use tachyon.Base.{
  ℕ, zero, suc, ◌<◌, ◌≡◌, refl, ◌⊎◌, inl, inr, false, some, List, [], ◌∷◌, arith, get_or,
}
use tachyon.Memory.VirtualZoneManager.{VirtualZone, no_zone, is_free, overlaps, find_free, define}
use tachyon.Memory.VirtualZoneManager.Define.{Defined, Ends, define-Ends, Apart, Inside}

abbrev zone : ℕ → ℕ → VirtualZone
zone s e = record { start = s; end = e; in_use = false }

abbrev zones : List VirtualZone
zones = zone 0x1000 0x9000 ∷ no_zone ∷ no_zone ∷ []

-- The last free zone is the one that is taken.
takes_the_last : (define 0x9000 0xA000 zones).1 ≡ some 2
unfolding define find_free is_free overlaps
takes_the_last = refl

-- A region strictly inside a zone is accepted.
accepts_inside : (define 0x2000 0x3000 zones).1 ≡ some 2
unfolding define find_free is_free overlaps
accepts_inside = refl

define-Ends_example : Ends 0x2000 0x3000 zones
define-Ends_example = define-Ends 0x2000 0x3000 zones (omega arith)

zones-Defined : Defined 0x9000 0xA000 zones 2
unfolding define find_free is_free overlaps
zones-Defined = record {
  below = omega arith;
  was_free = refl;
  returns = refl;
  separate = λ j inside used zone. first j inside used;
}
  where
    first :
        (j : ℕ)
        → j < 3
        → is_free (get_or zones j no_zone) ≡ false
        → Apart 0x9000 0xA000 (get_or zones j no_zone)
          ⊎ Inside 0x9000 0xA000 (get_or zones j no_zone)
    first zero inside used = inl (inr (omega arith))
    first (suc zero) inside used = absurd (ground arith)
    first (suc (suc zero)) inside used = absurd (ground arith)
    first (suc (suc (suc j))) inside used = absurd (omega arith)
