-- ===== src/Io/MemoryFileAdapter.antt =====
-- MemoryFileAdapter (core/tachyon.io/MemoryFileAdapter.cc, include/tachyon.io/MemoryFileAdapter.h): a
-- region of memory as a file. Offsets and lengths are 64-bit words; an off_t is read as signed.
pub mod Transfer
mod Tests
use tachyon.Base.{
  ℕ, zero, suc, ◌+◌, ◌-◌, ◌*◌, ◌/◌, ◌%◌, ◌^◌, ◌≤◌, ◌<◌, min, bit_and, bit_or, ◌≡◌, refl, sym, ap,
  ◌∙◌, ◌≢◌, ◌↔◌, ◌⊎◌, inl, inr, Bool, true, false, not, ◌&&◌, ◌||◌, Option, none, some, List, [],
  ◌∷◌, ◌++◌, map, arith, ltb, leb, ◌==◌, if◌then◌else◌, ltb→lt, lt→ltb, le→ltb, leb→le, le→leb,
  lt→leb, ==_iff, same, same→eq, Bool-cases, Option-cases, passes_below, passes_below_sound, length,
  get_elem?, get_or, set, take, drop, replicate, All, length-append, length-set, length-replicate,
  get_or-set, get_or-replicate, get_or-replicate_lt, get_or_ext, All-set, All-get_or, All-replicate,
  Outcome, ok, fatal, out_of_fuel, ◌>>=◌, ◌>>◌, kassert, >>=-eq-ok,
}
use tachyon.Base.Bits.{word, add64, sub64}
use tachyon.Memory.MemoryHelper.{copy}

pub record MemoryFileAdapter : Type 0 where
  pub f_base : ℕ
  pub cur_off : ℕ
  pub length : ℕ

pub data SeekRel : Type 0 where
  seek_set seek_current seek_end : SeekRel

abbrev pub open_file : ℕ → ℕ → MemoryFileAdapter
open_file base len = record { f_base = base; cur_off = 0; length = len }

-- bytesToCopy
unfoldable pub bytes_to_copy : ℕ → MemoryFileAdapter → ℕ
bytes_to_copy num_bytes f =
    if ltb f.length (add64 f.cur_off num_bytes) then sub64 f.length f.cur_off else num_bytes

abbrev pub advance : ℕ → MemoryFileAdapter → MemoryFileAdapter
advance n f = record f { cur_off = add64 f.cur_off n }

-- The file, the memory and the number of bytes read.
unfoldable pub read : ℕ → ℕ → MemoryFileAdapter → (ℕ → ℕ) → MemoryFileAdapter × (ℕ → ℕ) × ℕ
read buffer num_bytes f mem =
    let n = bytes_to_copy num_bytes f in (advance n f, copy (f.f_base + f.cur_off) buffer n mem, n)

unfoldable pub write_file : ℕ → ℕ → MemoryFileAdapter → (ℕ → ℕ) → MemoryFileAdapter × (ℕ → ℕ) × ℕ
write_file buffer num_bytes f mem =
    let n = bytes_to_copy num_bytes f in (advance n f, copy buffer (f.f_base + f.cur_off) n mem, n)

abbrev pub is_negative : ℕ → Bool
is_negative offset = leb (2 ^ 63) offset

abbrev pub seek_failed : ℕ
seek_failed = word - 1

unfoldable pub seek : ℕ → SeekRel → MemoryFileAdapter → MemoryFileAdapter × ℕ
seek offset seek_set f =
    if is_negative offset || ltb f.length offset
    then (f, seek_failed)
    else (record f { cur_off = offset }, offset)
seek offset seek_current f =
    if is_negative (add64 f.cur_off offset) || ltb f.length (add64 f.cur_off offset)
    then (f, seek_failed)
    else (advance offset f, add64 f.cur_off offset)
seek offset seek_end f =
    if (not (is_negative offset) && ltb 0 offset) || ltb f.length (sub64 0 offset)
    then (f, seek_failed)
    else (advance offset f, add64 f.cur_off offset)

abbrev pub tell : MemoryFileAdapter → ℕ
tell f = f.cur_off

abbrev pub eof : MemoryFileAdapter → Bool
eof f = f.cur_off == f.length
