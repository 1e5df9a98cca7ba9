-- ===== src/Memory/VirtualMemory/Map.antt =====
-- VirtualMemory::map for a small page (core/tachyon.memory/x86_64/VirtualMemory.cc).
use mathlib.Core.Path.{subst}
use tachyon.Base.{
  ℕ, ◌+◌, ◌*◌, ◌/◌, ◌%◌, ◌^◌, ◌≤◌, ◌<◌, bit_or, ◌≡◌, refl, ap, ◌∙◌, inl, inr, true, false, arith,
  ◌==◌, Bool-cases, sym, Option, Outcome, ok, fatal, ◌>>=◌,
}
use tachyon.Base.Bits.{bit_or_fields, or_lowest}
use tachyon.Memory.TempMap.{Machine, is_present, is_large, pstruct_addr, pstruct_unmap, write}
use tachyon.Memory.TempMap.Entries.{is_present_lem, pstruct_addr_lem}
use tachyon.Memory.TempMap.Slots.{IsValid, unused}
use tachyon.Memory.TempMap.Release.{pstruct_unmap-IsValid, unused-pstruct_unmap}
use tachyon.Memory.Paging.{small_page, walk}
use tachyon.Memory.VirtualMemory.{
  Structures, map_in, map_page, mapping, unmap_tables, get_mapped_addr, split_virtual_and_map,
}
use tachyon.Memory.VirtualMemory.Reaches.{
  Reaches, walk-Reaches, Reaches-write, Split, split_virtual_and_map-Split, load_pd, load_pt,
  store_pt,
}
use tachyon.Memory.VirtualMemory.Lookup.{page_of, Looked, get_mapped_addr-Looked}

-- The entry that map writes for the page at `q * 4096`.
module _ (q flags : ℕ) (small : flags < 4096) where
  pub mapping_lem : mapping (q * 4096) flags ≡ q * 4096 + (flags / 2 * 2 + 1)
  unfolding mapping
  mapping_lem = rw (bit_or_fields 12 q 1 (omega arith)) (
      omega (
        arith,
        or_lowest (q * 4096 + 1) flags,
        bit_or_fields 11 q (flags / 2) (omega arith),
        ap (λ (t : ℕ). bit_or t (flags / 2)) half,
      ))
    where
      half : (q * 4096 + 1) / 2 ≡ q * 2048
      half = omega arith

  mapping_present : is_present (mapping (q * 4096) flags) ≡ true
  mapping_present = ap is_present mapping_lem ∙ is_present_lem _ ∙ ground arith

  mapping_page : q * 4096 < 2 ^ 64 → pstruct_addr (mapping (q * 4096) flags) ≡ q * 4096
  mapping_page word = ap pstruct_addr mapping_lem ∙ pstruct_addr_lem _ (omega arith) ∙ omega arith

module _ (m : Machine) (space virt place q flags left : ℕ) (r : Reaches m.ram space virt place)
    (out : Outcome (Machine × Option Structures)) (split : Split m space virt place left r out)
    (small : is_large flags ≡ false) where
  -- The state behind map: the temporary mappings aside, the entry is all that changed.
  behind : Machine
  behind = unmap_tables split.tables (
      pstruct_unmap split.tables.pt
        (record split.n { ram = write place (mapping (q * 4096) flags) m.ram }))

  -- Behind the split, map over a page that is mapped already stops the kernel.
  pub map_in_present :
      is_present (m.ram place) ≡ true
      → (out >>= λ (m', t). map_in t virt (q * 4096) flags m') ≡ fatal
  unfolding map_in
  map_in_present present = rw (split.returns, load_pd split, small, r.small, load_pt split, present)

  map_in_vacant :
      is_present (m.ram place) ≡ false
      → (out >>= λ (m', t). map_in t virt (q * 4096) flags m') ≡ ok behind
  unfolding map_in behind
  map_in_vacant vacant = rw (
    split.returns,
    load_pd split,
    small,
    r.small,
    load_pt split,
    vacant,
    store_pt split (mapping (q * 4096) flags),
  )

  behind_ram : behind.ram ≡ write place (mapping (q * 4096) flags) m.ram
  unfolding behind unmap_tables pstruct_unmap
  behind_ram = refl

  behind_unused : left ≤ unused behind.temp_mappings
  unfolding behind unmap_tables
  behind_unused =
      let n1 = record split.n { ram = write place (mapping (q * 4096) flags) m.ram } in
      let n2 = pstruct_unmap split.tables.pt n1 in
      let n3 = pstruct_unmap split.tables.pd n2 in
      let n4 = pstruct_unmap split.tables.pdpt n3 in
      omega (
        arith,
        split.pt_at.room,
        unused-pstruct_unmap n1 split.tables.pt,
        unused-pstruct_unmap n2 split.tables.pd,
        unused-pstruct_unmap n3 split.tables.pdpt,
        unused-pstruct_unmap n4 split.tables.pml4,
      )

  module _ (valid : IsValid m) (page : q * 4096 < 2 ^ 64) (fits : flags < 4096) where
    behind-IsValid : IsValid behind
    unfolding behind unmap_tables
    behind-IsValid = pstruct_unmap-IsValid split.tables.pml4 (
        pstruct_unmap-IsValid split.tables.pdpt (
          pstruct_unmap-IsValid split.tables.pd (
            pstruct_unmap-IsValid split.tables.pt
              (record { ten = split.pt_at.valid.ten; words = λ x. written x }))))
      where
        written : (x : ℕ) → write place (mapping (q * 4096) flags) m.ram x < 2 ^ 64
        written x = elim (Bool-cases (x == place)) [
          | inl h ↦ rw h (omega (arith, mapping_lem q flags fits))
          | inr h ↦ rw h (valid.words x)
        ]

    walk_behind :
        is_present (m.ram place) ≡ false
        → walk behind.ram space virt ≡ small_page (mapping (q * 4096) flags)
    walk_behind vacant =
        ap (λ (ram : ℕ → ℕ). walk ram space virt) behind_ram
        ∙ walk-Reaches (write place (mapping (q * 4096) flags) m.ram) space virt place
            (Reaches-write m.ram place (mapping (q * 4096) flags) vacant space virt r)
        ∙ ap small_page here
      where
        here : write place (mapping (q * 4096) flags) m.ram place ≡ mapping (q * 4096) flags
        here = let same_place : (place == place) ≡ true = ground arith in rw same_place

-- What map does for a small page.
pub record NewPage (m : Machine) (space virt place q flags : ℕ) (r : Outcome Machine) : Type 0 where
  pub m' : Machine
  pub returns : r ≡ ok m'
  pub only_entry : m'.ram ≡ write place (mapping (q * 4096) flags) m.ram
  pub walks : walk m'.ram space virt ≡ small_page (mapping (q * 4096) flags)
  pub lookup : Looked m' (q * 4096) (get_mapped_addr space virt m')

-- map behind a split whose entry is vacant.
pub map_in-NewPage :
    (m : Machine) (space virt place q flags : ℕ) (r : Reaches m.ram space virt place)
    (out : Outcome (Machine × Option Structures))
    → Split m space virt place 4 r out
    → IsValid m
    → space % 4096 ≡ 0
    → space < 2 ^ 64
    → is_large flags ≡ false
    → q * 4096 < 2 ^ 64
    → flags < 4096
    → is_present (m.ram place) ≡ false
    → NewPage m space virt place q flags (out >>= λ (m', t). map_in t virt (q * 4096) flags m')
map_in-NewPage m space virt place q flags r out split valid whole word small page fits vacant =
    let n = behind m space virt place q flags 4 r out split small in
    let walks = walk_behind m space virt place q flags 4 r out split small valid page fits vacant in
    record {
      m' = n;
      returns = map_in_vacant m space virt place q flags 4 r out split small vacant;
      only_entry = behind_ram m space virt place q flags 4 r out split small;
      walks = walks;
      lookup =
          subst (λ (t : ℕ). Looked n t (get_mapped_addr space virt n))
            (ap page_of walks ∙ mapping_page q flags fits page)
            (get_mapped_addr-Looked n space virt
              (behind-IsValid m space virt place q flags 4 r out split small valid page fits) whole
              word (behind_unused m space virt place q flags 4 r out split small));
    }

-- map of a small page is its split and what follows it.
pub map_page_small :
    (fuel space virt phys flags : ℕ) (m : Machine)
    → is_large flags ≡ false
    → map_page fuel space virt phys flags m ≡ (
        split_virtual_and_map fuel space virt false false m >>= λ (m', t).
        map_in t virt phys flags m')
unfolding map_page
map_page_small fuel space virt phys flags m small = rw small refl

-- map of a small page, with flags below 4096, whose structures are present and whose entry is not
-- returns where eight temporary mappings are unused: only the entry changes, the walk of the
-- processor ends at it, and getMappedAddr then gives the address of the page.
pub map_page-NewPage :
    (fuel : ℕ) (m : Machine) (space virt place q flags : ℕ)
    → IsValid m
    → space % 4096 ≡ 0
    → space < 2 ^ 64
    → Reaches m.ram space virt place
    → 8 ≤ unused m.temp_mappings
    → is_large flags ≡ false
    → q * 4096 < 2 ^ 64
    → flags < 4096
    → is_present (m.ram place) ≡ false
    → NewPage m space virt place q flags (map_page fuel space virt (q * 4096) flags m)
map_page-NewPage fuel m space virt place q flags valid whole word r room small page fits vacant =
    subst (NewPage m space virt place q flags)
      (sym (map_page_small fuel space virt (q * 4096) flags m small))
      (map_in-NewPage m space virt place q flags r _
        (split_virtual_and_map-Split fuel false m space virt place 4 valid whole word r room) valid
        whole word small page fits vacant)
