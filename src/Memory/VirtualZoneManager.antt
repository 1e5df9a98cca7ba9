-- ===== src/Memory/VirtualZoneManager.antt =====
-- VirtualZoneManager and VirtualZone (core/tachyon.memory/VirtualZoneManager.cc,
-- include/tachyon.memory/VirtualZone.h): a table of virtual regions. A zone is named by its index.
pub mod Define
mod Tests
use tachyon.Base.{
  ℕ, zero, suc, ◌+◌, ◌-◌, ◌*◌, ◌/◌, ◌%◌, ◌^◌, ◌≤◌, ◌<◌, min, bit_and, bit_or, ◌≡◌, refl, sym, ap,
  ◌∙◌, ◌≢◌, ◌↔◌, ◌⊎◌, inl, inr, Bool, true, false, not, ◌&&◌, ◌||◌, Option, none, some, List, [],
  ◌∷◌, ◌++◌, map, arith, ltb, leb, ◌==◌, if◌then◌else◌, ltb→lt, lt→ltb, le→ltb, leb→le, le→leb,
  lt→leb, ==_iff, same, same→eq, Bool-cases, Option-cases, passes_below, passes_below_sound, length,
  get_elem?, get_or, set, take, drop, replicate, All, length-append, length-set, length-replicate,
  get_or-set, get_or-replicate, get_or-replicate_lt, get_or_ext, All-set, All-get_or, All-replicate,
  Outcome, ok, fatal, out_of_fuel, ◌>>=◌, ◌>>◌, kassert, >>=-eq-ok,
}

pub record VirtualZone : Type 0 where
  pub start : ℕ
  pub end : ℕ
  pub in_use : Bool

abbrev pub max_vzones : ℕ
max_vzones = 32

abbrev pub no_zone : VirtualZone
no_zone = record { start = 0; end = 0; in_use = false }

-- VirtualZone::init and destroy, which leave the flag of use.
abbrev pub init : ℕ → ℕ → VirtualZone → VirtualZone
init s e z = record z { start = s; end = e }

abbrev pub destroy : VirtualZone → VirtualZone
destroy z = record z { start = 0; end = 0 }

unfoldable pub is_free : VirtualZone → Bool
is_free z = z.start == 0 && z.end == 0

-- The test of define on a zone that is defined.
unfoldable pub overlaps : ℕ → ℕ → VirtualZone → Bool
overlaps start end z = (leb start z.start && ltb z.start end) || (ltb start z.end && leb z.end end)

-- The loop of define: `none` for an overlap, else the last free zone.
unfoldable pub find_free : List VirtualZone → ℕ → ℕ → ℕ → Option ℕ → Option (Option ℕ)
find_free [] i start end free = some free
find_free (z ∷ zs) i start end free =
    let next = find_free zs (i + 1) start end (some i) in
    let same_free = find_free zs (i + 1) start end free in
    if is_free z then next else if overlaps start end z then none else same_free

abbrev pub define_at : Option (Option ℕ) → ℕ → ℕ → List VirtualZone → List VirtualZone × Option ℕ
define_at none start end zones = (zones, none)
define_at (some none) start end zones = (zones, none)
define_at (some (some i)) start end zones =
    (set zones i (init start end (get_or zones i no_zone)), some i)

unfoldable pub define : ℕ → ℕ → List VirtualZone → List VirtualZone × Option ℕ
define start end zones = define_at (find_free zones 0 start end none) start end zones

unfoldable pub remove : ℕ → List VirtualZone → List VirtualZone
remove i zones = set zones i (destroy (get_or zones i no_zone))
