-- ===== src/Memory/TempMap/Release.antt =====
-- pstructUnmap (core/tachyon.memory/x86_64/VirtualMemory.cc).
use tachyon.Base.{
  ℕ, suc, ◌+◌, ◌%◌, ◌≤◌, ◌≡◌, refl, ap, ◌∙◌, ◌≢◌, inl, inr, false, List, [], ◌∷◌, arith, ◌==◌,
  Bool-cases, length,
}
use tachyon.Memory.TempMap.{Machine, tempmap_addr, release, pstruct_unmap}
use tachyon.Memory.TempMap.Entries.{tempmap_addr_lem}
use tachyon.Memory.TempMap.Slots.{IsValid, unused, Mapped}

length-release : (es : List ℕ) (i virt : ℕ) → length (release es i virt) ≡ length es
unfolding release
length-release [] i virt = refl
length-release (e ∷ es) i virt = elim (Bool-cases (tempmap_addr i == virt)) [
  | inl h ↦ rw h
  | inr h ↦ rw h (ap suc (length-release es (i + 1) virt))
]

unused-release : (es : List ℕ) (i virt : ℕ) → unused es ≤ unused (release es i virt)
unfolding release unused
unused-release [] i virt = omega arith
unused-release (e ∷ es) i virt = elim (Bool-cases (tempmap_addr i == virt)) [
  | inl h ↦ rw h (ground arith)
  | inr h ↦ rw h (omega (arith, unused-release es (i + 1) virt))
]

pub pstruct_unmap-IsValid : {m : Machine} (virt : ℕ) → IsValid m → IsValid (pstruct_unmap virt m)
unfolding pstruct_unmap
pstruct_unmap-IsValid {m} virt valid = record {
  ten = length-release m.temp_mappings 0 virt ∙ valid.ten;
  words = valid.words;
}

pub unused-pstruct_unmap :
    (m : Machine) (virt : ℕ) → unused m.temp_mappings ≤ unused (pstruct_unmap virt m).temp_mappings
unfolding pstruct_unmap
unused-pstruct_unmap m virt = unused-release m.temp_mappings 0 virt

release_other :
    (es : List ℕ) (i virt : ℕ) → i + length es ≤ 10 → virt % 0x200000 ≢ 0 → release es i virt ≡ es
unfolding release
release_other [] i virt inside off = refl
release_other (e ∷ es) i virt inside off =
    let other : (tempmap_addr i == virt) ≡ false =
      ground (arith, tempmap_addr_lem i (omega arith)) in
    rw other (ap (◌∷◌ e) (release_other es (i + 1) virt (omega arith) off))

-- Unmapping a structure that does not stand at a multiple of 2 MiB changes nothing: the address that
-- pstructMap returned for it is not the start of a temporary mapping, and the entry stays in use.
pub pstruct_unmap_keeps_entry :
    (m : Machine) (phys virt : ℕ)
    → IsValid m
    → Mapped m phys virt
    → phys % 0x200000 ≢ 0
    → pstruct_unmap virt m ≡ m
unfolding pstruct_unmap
pstruct_unmap_keeps_entry m phys virt valid mapped off =
    let other : virt % 0x200000 ≢ 0 =
      omega (arith, mapped.address, tempmap_addr_lem mapped.slot mapped.inside) in
    ap (λ (es : List ℕ). record m { temp_mappings = es })
      (release_other m.temp_mappings 0 virt (omega (arith, valid.ten)) other)
