-- ===== src/Boot/MultiBoot/Tests.antt =====
-- A memory map of two entries.
use tachyon.Base.{ℕ, ◌+◌, ◌≡◌, refl, [], ◌∷◌, arith, ◌==◌, if◌then◌else◌, take, ok}
use tachyon.Boot.MultiBoot.{count_entries, memory_range}
use tachyon.Boot.MultiBoot.Entries.{span, count_entries-memory_range}

abbrev map_memory : ℕ → ℕ
map_memory p = if p == 1000 then 20 else if p == 1024 then 28 else 0

two_sizes : span (20 ∷ 28 ∷ []) ≡ 56
unfolding span
two_sizes = refl

count_entries-memory_range_example :
    (count_entries 3 map_memory 1000 (span (20 ∷ 28 ∷ [])) ≡ ok 2)
    × (memory_range map_memory 1000 1 ≡ 1000 + span (take 1 (20 ∷ 28 ∷ [])))
count_entries-memory_range_example =
    count_entries-memory_range map_memory 1000 1 (20 ∷ 28 ∷ []) (refl, (refl, tt))
      (omega (arith, two_sizes)) (omega arith)
