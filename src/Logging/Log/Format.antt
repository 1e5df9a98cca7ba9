-- ===== src/Logging/Log/Format.antt =====
-- Log::format (core/tachyon.logging/Log.cc).
use tachyon.Base.{ℕ, ◌≤◌, ◌≡◌, ◌⊎◌, List, [], ◌∷◌, length, Outcome, ok, overrun}
use tachyon.Logging.Log.{read_spec}

-- Somewhere in the bytes a `%` asks for a width of 32 and more.
abbrev pub AsksWide : List ℕ → Type 0
AsksWide [] = ⊥
AsksWide (c ∷ cs) = ((c ≡ 37) × (32 ≤ (read_spec cs).width)) ⊎ AsksWide cs

-- How format ends: with a text within the buffer, or with a number written behind its temporary text.
pub data Ended (len : ℕ) (fmt : List ℕ) (r : Outcome (List ℕ)) : Type 0 where
  formatted : (out : List ℕ) → r ≡ ok out → length out ≤ len → Ended len fmt r
  too_wide : r ≡ overrun → AsksWide fmt → Ended len fmt r
