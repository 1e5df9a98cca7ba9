-- ===== src/Memory/MemoryHelper/Tests.antt =====
-- The memory helpers at a memory in which each byte holds its address.
use tachyon.Base.{ℕ, ◌%◌, ◌≡◌, refl, inr, none, arith}
use tachyon.Memory.MemoryHelper.{move_bytes, move_up, overlapping, find, find_from}
use tachyon.Memory.MemoryHelper.Copy.{copied, move_bytes-copied}

abbrev memory : ℕ → ℕ
memory x = x % 256

-- A move upwards by one byte repeats the first byte.
smears : move_bytes 10 11 3 memory 13 ≡ 10
unfolding move_bytes move_up overlapping
smears = refl

-- find does not look at the byte it starts at.
skips_the_first : find 10 10 3 memory ≡ none
unfolding find find_from
skips_the_first = refl

move_bytes-copied_example : move_bytes 10 8 5 memory 9 ≡ copied 10 8 5 memory 9
move_bytes-copied_example = move_bytes-copied 10 8 5 memory 9 (inr (inr (omega arith, omega arith)))
