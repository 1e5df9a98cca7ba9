-- ===== src/Io/MemoryFileAdapter/Tests.antt =====
-- A file of four bytes.
use tachyon.Base.{ℕ, ◌+◌, ◌%◌, ◌<◌, ◌≡◌, refl, inl, inr, arith}
use tachyon.Io.MemoryFileAdapter.{
  MemoryFileAdapter, seek_set, seek_end, open_file, read, write_file, seek, bytes_to_copy,
}
use tachyon.Io.MemoryFileAdapter.Transfer.{IsValid, read-write_file}

abbrev file : MemoryFileAdapter
file = open_file 100 4

file-IsValid : IsValid file
file-IsValid = record { inside = omega arith; small = omega arith }

-- The end of the file is not where Seek_End goes: the offset stays.
seek_end_stays : seek 0 seek_end file ≡ (file, 0)
unfolding seek
seek_end_stays = refl

abbrev memory : ℕ → ℕ
memory x = x % 256

four : 3 < (write_file 10 9 file memory).2
unfolding write_file bytes_to_copy
four = omega arith

read-write_file_example :
    let w = write_file 10 9 file memory in
    let r = read 50 9 (seek 0 seek_set w.0).0 w.1 in
    (r.2 ≡ w.2)
    × (r.1 (50 + 3) ≡ memory (10 + 3))
    × (w.0.cur_off ≡ 0 + w.2)
    × (r.0.cur_off ≡ 0 + r.2)
    × IsValid r.0
read-write_file_example =
    read-write_file 10 50 9 3 file memory file-IsValid (omega arith) (inr (omega arith))
      (inl (omega arith)) four
