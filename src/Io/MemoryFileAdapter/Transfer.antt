-- ===== src/Io/MemoryFileAdapter/Transfer.antt =====
-- Reading, writing and seeking in a MemoryFileAdapter (core/tachyon.io/MemoryFileAdapter.cc).
use tachyon.Base.{
  ℕ, ◌+◌, ◌-◌, ◌^◌, ◌≤◌, ◌<◌, min, ◌≡◌, refl, ◌∙◌, ◌⊎◌, inl, inr, true, false, ◌&&◌, ◌||◌, arith,
  ltb, leb, Bool-cases,
}
use tachyon.Base.Bits.{add64}
use tachyon.Memory.MemoryHelper.{copy}
use tachyon.Memory.MemoryHelper.Copy.{copied, copy-copied}
use tachyon.Io.MemoryFileAdapter.{
  MemoryFileAdapter, SeekRel, seek_set, seek_current, seek_end, bytes_to_copy, advance, read,
  write_file, seek, seek_failed, is_negative,
}

-- The offset lies in the file, the file in the lower half of the address space.
pub record IsValid (f : MemoryFileAdapter) : Type 0 where
  pub inside : f.cur_off ≤ f.length
  pub small : f.length < 2 ^ 63

-- What is left behind the offset bounds the bytes.
pub bytes_to_copy_lem :
    (n : ℕ) (f : MemoryFileAdapter)
    → IsValid f
    → n < 2 ^ 63
    → bytes_to_copy n f ≡ min n (f.length - f.cur_off)
unfolding bytes_to_copy
bytes_to_copy_lem n f valid small = ground (arith, valid.inside, valid.small)

-- seek from the start or from the offset goes to an offset within the file, which it returns, or
-- returns -1 and leaves the file as it was.
pub seek-IsValid :
    (offset : ℕ) (rel : SeekRel) (f : MemoryFileAdapter)
    → IsValid f
    → (rel ≡ seek_set) ⊎ (rel ≡ seek_current)
    → IsValid (seek offset rel f).0
      × ((seek offset rel f ≡ (f, seek_failed))
          ⊎ ((seek offset rel f).1 ≡ (seek offset rel f).0.cur_off))
unfolding seek
seek-IsValid offset seek_set f valid from =
    elim (Bool-cases (is_negative offset || ltb f.length offset)) [
      | inl h ↦ rw h (valid, inl refl)
      | inr h ↦ rw h (record { inside = ground arith; small = valid.small }, inr refl)
    ]
seek-IsValid offset seek_current f valid from =
    elim (Bool-cases
      (is_negative (add64 f.cur_off offset) || ltb f.length (add64 f.cur_off offset))) [
        | inl h ↦ rw h (valid, inl refl)
        | inr h ↦ rw h (record { inside = ground arith; small = valid.small }, inr refl)
      ]
seek-IsValid offset seek_end f valid (inl e) = absurd cc
seek-IsValid offset seek_end f valid (inr e) = absurd cc

-- A region copied without bytes overwritten before they are read.
abbrev Apart : ℕ → ℕ → ℕ → Type 0
Apart source dest n = (dest ≤ source) ⊎ (source + n ≤ dest)

copied_at :
    (source dest n i : ℕ) (mem : ℕ → ℕ)
    → i < n
    → copied source dest n mem (dest + i) ≡ mem (source + i)
unfolding copied
copied_at source dest n i mem inside =
    let here : (leb dest (dest + i) && ltb (dest + i) (dest + n)) ≡ true = ground arith in
    let off : dest + i - dest ≡ i = omega arith in rw (here, off)

-- For a length below 2^63 and where neither copy goes to an address inside its source, behind its
-- start: after write, a seek back and a read of the same length, read copies as many bytes as were
-- written, which stand at the target as they stood in the buffer; the offset is behind them, as
-- after the write, and within the file.
pub read-write_file :
    (buffer target n i : ℕ) (f : MemoryFileAdapter) (mem : ℕ → ℕ)
    → IsValid f
    → n < 2 ^ 63
    → Apart buffer (f.f_base + f.cur_off) n
    → Apart (f.f_base + f.cur_off) target n
    → i < (write_file buffer n f mem).2
    → let w = write_file buffer n f mem in
      let r = read target n (seek f.cur_off seek_set w.0).0 w.1 in
      (r.2 ≡ w.2)
      × (r.1 (target + i) ≡ mem (buffer + i))
      × (w.0.cur_off ≡ f.cur_off + w.2)
      × (r.0.cur_off ≡ f.cur_off + r.2)
      × IsValid r.0
unfolding read write_file
read-write_file buffer target n i f mem valid small apart1 apart2 inside =
    let k : bytes_to_copy n f ≡ min n (f.length - f.cur_off) = bytes_to_copy_lem n f valid small in
    let less : bytes_to_copy n f ≤ n = omega arith in
    let back : seek f.cur_off seek_set (advance (bytes_to_copy n f) f) ≡ (f, f.cur_off) = again in
    rw back (
      refl,
      copy-copied (f.f_base + f.cur_off) target (bytes_to_copy n f)
            (copy buffer (f.f_base + f.cur_off) (bytes_to_copy n f) mem) (target + i)
            (narrow (f.f_base + f.cur_off) target less apart2)
          ∙ copied_at (f.f_base + f.cur_off) target (bytes_to_copy n f) i
              (copy buffer (f.f_base + f.cur_off) (bytes_to_copy n f) mem) inside
          ∙ copy-copied buffer (f.f_base + f.cur_off) (bytes_to_copy n f) mem
              (f.f_base + f.cur_off + i) (narrow buffer (f.f_base + f.cur_off) less apart1)
          ∙ copied_at buffer (f.f_base + f.cur_off) (bytes_to_copy n f) i mem inside,
      omega (arith, k, valid.inside, valid.small),
      omega (arith, k, valid.inside, valid.small),
      record { inside = omega (arith, k, valid.inside, valid.small); small = valid.small },
    )
  where
    again : seek f.cur_off seek_set (advance (bytes_to_copy n f) f) ≡ (f, f.cur_off)
    again =
        let good : (is_negative f.cur_off || ltb f.length f.cur_off) ≡ false =
          ground (arith, valid.inside, valid.small) in
        unfold seek in rw good

    narrow : (source dest : ℕ) {k : ℕ} → k ≤ n → Apart source dest n → Apart source dest k
    narrow source dest less (inl h) = inl h
    narrow source dest less (inr h) = inr (omega arith)
