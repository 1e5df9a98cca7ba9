-- ===== src/Memory/X86/TempMap/Slots.antt =====
-- pstructMap and pstructUnmap of the x86 build (core/tachyon.memory/x86/VirtualMemory.cc) on the ten
-- entries, for structures at page addresses.
use tachyon.Base.{
  ℕ, zero, suc, ◌+◌, ◌-◌, ◌*◌, ◌/◌, ◌%◌, ◌^◌, ◌≤◌, ◌<◌, bit_or, ◌≡◌, refl, sym, ap, ◌∙◌, ◌≢◌, inl,
  inr, true, false, none, some, List, [], ◌∷◌, arith, ◌==◌, le→ltb, length, get_or, set, ok, ◌>>=◌,
}
use tachyon.Base.Bits.{bit_and_mask, bit_and_page32, bit_or_fields, bit_or-zero, or_lowest}
use tachyon.Memory.TempMap.{is_present}
use tachyon.Memory.TempMap.Entries.{is_present_lem}
use tachyon.Memory.TempMap.Slots.{unused, find_unused_lem}
use tachyon.Memory.X86.TempMap.{
  Machine, phys_page, phys_off, pstruct_addr, tempmap_addr, find_page, temp_entry, release,
  pstruct_map, resolve, load, load_word, store, zero_page, write, zeroed,
}

pub phys_page_lem : (e : ℕ) → e < 2 ^ 32 → phys_page e ≡ e / 4096 * 4096
unfolding phys_page
phys_page_lem = bit_and_page32

pub pstruct_addr_lem : (e : ℕ) → e < 2 ^ 32 → pstruct_addr e ≡ e / 4096 * 4096
unfolding pstruct_addr
pstruct_addr_lem = bit_and_page32

pub phys_off_lem : (e : ℕ) → phys_off e ≡ e % 4096
unfolding phys_off
phys_off_lem = bit_and_mask 12

pub tempmap_addr_lem : (i : ℕ) → i < 10 → tempmap_addr i ≡ (2 ^ 20 - 10 + i) * 4096
unfolding tempmap_addr
tempmap_addr_lem i h = omega arith

pub temp_entry_lem : (p : ℕ) → temp_entry (p * 4096) ≡ p * 4096 + 0x103
unfolding temp_entry
temp_entry_lem p = rw (bit_or_fields 12 p 1 (omega arith), writable) global
  where
    half : (p * 4096 + 1) / 2 ≡ p * 2048
    half = omega arith

    writable : bit_or (p * 4096 + 1) 2 ≡ p * 4096 + 3
    writable = omega (
      arith,
      or_lowest (p * 4096 + 1) 2,
      ap (λ (t : ℕ). bit_or t 1) half,
      bit_or_fields 11 p 1 (omega arith),
    )

    half3 : (p * 4096 + 3) / 2 ≡ p * 2048 + 1
    half3 = omega arith

    quarter : (p * 2048 + 1) / 2 ≡ p * 1024
    quarter = omega arith

    global : bit_or (p * 4096 + 3) 0x100 ≡ p * 4096 + 0x103
    global = omega (
      arith,
      or_lowest (p * 4096 + 3) 0x100,
      ap (λ (t : ℕ). bit_or t 0x80) half3,
      or_lowest (p * 2048 + 1) 0x80,
      ap (λ (t : ℕ). bit_or t 0x40) quarter,
      bit_or_fields 10 p 0x40 (omega arith),
    )

-- The address of a structure.
pub record IsPage (addr : ℕ) : Type 0 where
  pub whole : addr % 4096 ≡ 0
  pub word : addr < 2 ^ 32

pub phys_page-IsPage : {addr : ℕ} → IsPage addr → phys_page addr ≡ addr
phys_page-IsPage {addr} p = omega (arith, phys_page_lem addr p.word, p.whole)

pub pstruct_addr-IsPage : (e : ℕ) → e < 2 ^ 32 → IsPage (pstruct_addr e)
pstruct_addr-IsPage e word = record {
  whole = omega (arith, pstruct_addr_lem e word);
  word = omega (arith, pstruct_addr_lem e word);
}

temp_entry-IsPage : (addr : ℕ) → IsPage addr → temp_entry addr ≡ addr + 0x103
temp_entry-IsPage addr p =
    let pages : addr ≡ addr / 4096 * 4096 = omega (arith, p.whole) in
    ap temp_entry pages ∙ temp_entry_lem (addr / 4096) ∙ omega (arith, p.whole)

pub temp_entry_present : (addr : ℕ) → IsPage addr → is_present (temp_entry addr) ≡ true
temp_entry_present addr p =
    ap is_present (temp_entry-IsPage addr p)
    ∙ is_present_lem (addr + 0x103)
    ∙ ground (arith, p.whole)

pub temp_entry_page : (addr : ℕ) → IsPage addr → phys_page (temp_entry addr) ≡ addr
temp_entry_page addr p =
    ap phys_page (temp_entry-IsPage addr p)
    ∙ phys_page_lem (addr + 0x103) (omega (arith, p.whole, p.word))
    ∙ omega (arith, p.whole)

-- An entry that is set and released is as before.
pub release-set :
    (es : List ℕ) (i k v : ℕ)
    → i + length es ≤ 10
    → k < length es
    → get_or es k 0 ≡ 0
    → release (set es k v) i (tempmap_addr (i + k)) ≡ es
unfolding release
release-set [] i k v ten below vacant = absurd (omega arith)
release-set (e ∷ es) i zero v ten below vacant =
    let same_index : i ≡ i + 0 = omega arith in
    let here : (tempmap_addr i == tempmap_addr (i + 0)) ≡ true =
      ground (arith, ap tempmap_addr same_index) in
    rw here (ap (λ (t : ℕ). t ∷ es) (sym vacant))
release-set (e ∷ es) i (suc k) v ten below vacant =
    let other : (tempmap_addr i == tempmap_addr (i + suc k)) ≡ false =
      ground
        (arith, tempmap_addr_lem i (omega arith), tempmap_addr_lem (i + suc k) (omega arith)) in
    rw other (
      ap (◌∷◌ e) (
        ap (λ (t : ℕ). release (set es k v) (i + 1) (tempmap_addr t)) (omega arith)
        ∙ release-set es (i + 1) k v (omega arith) (omega arith) vacant))

pub find_page-set :
    (es : List ℕ) (i k page other : ℕ)
    → find_page es i page ≡ none
    → IsPage other
    → other ≢ page
    → find_page (set es k (temp_entry other)) i page ≡ none
unfolding find_page
find_page-set [] i k page other missing p differ = refl
find_page-set (e ∷ es) i zero page other missing p differ = ground (arith, temp_entry_page other p)
find_page-set (e ∷ es) i (suc k) page other missing p differ =
    ground (arith, find_page-set es (i + 1) k page other)

-- An entry that is not used.
pub record Vacancy (es : List ℕ) : Type 0 where
  pub slot : ℕ
  pub inside : slot < length es
  pub vacant : get_or es slot 0 ≡ 0

module _ {S : Type 0} where
  abbrev pub with_entries : Machine S → List ℕ → Machine S
  with_entries m es = record m { temp_mappings = es }

  -- pstructMap has taken an entry that was not used.
  pub record Opened (m : Machine S) (addr : ℕ) : Type 0 where
    pub at : Vacancy m.temp_mappings
    pub returns :
        pstruct_map addr m
        ≡ ok (with_entries m (set m.temp_mappings at.slot (temp_entry addr)), tempmap_addr at.slot)

  pub pstruct_map-Opened :
      (m : Machine S) (addr : ℕ)
      → IsPage addr
      → find_page m.temp_mappings 0 addr ≡ none
      → 0 < unused m.temp_mappings
      → Opened m addr
  pstruct_map-Opened m addr p missing room = elim (find_unused_lem m.temp_mappings 0) [
    | inl (r, full) ↦ absurd (omega arith)
    | inr (k, found, below, vacant) ↦
        let index : 0 + k ≡ k = omega arith in
        record {
          at = record { slot = k; inside = below; vacant = vacant };
          returns =
              unfold pstruct_map in
              rw
                (
                  phys_page-IsPage p,
                  missing,
                  found ∙ ap some index,
                  phys_page-IsPage p,
                  phys_off_lem addr,
                  p.whole,
                  bit_or-zero,
                )
                refl;
        }
  ]

  -- The access through an entry.
  module _ (m : Machine S) (slot addr : ℕ) (inside : slot < 10) (p : IsPage addr)
      (here : get_or m.temp_mappings slot 0 ≡ temp_entry addr) where
    resolve_entry : (off : ℕ) → off < 4096 → resolve (tempmap_addr slot + off) m ≡ ok (addr + off)
    unfolding resolve
    resolve_entry off low =
        rw (tempmap_addr_lem slot inside, tempmap_addr_lem 0 (omega arith))
          (let slot_of : ((2 ^ 20 - 10 + slot) * 4096 + off - (2 ^ 20 - 10 + 0) * 4096) / 4096
                ≡ slot =
              omega arith in
            rw
              (
                slot_of,
                here,
                temp_entry_present addr p,
                temp_entry_page addr p,
                le→ltb ((2 ^ 20 - 10 + slot) * 4096 + off) ((2 ^ 20 - 10 + 0) * 4096) (omega arith),
              )
              (ap ok (omega arith)))

    module _ (i : ℕ) (low : i < 1024) where
      pub load_entry : load (tempmap_addr slot + 4 * i) m ≡ ok (m.ram (addr / 4 + i))
      unfolding load load_word
      load_entry =
          let word_aligned : (tempmap_addr slot + 4 * i) % 4 ≡ 0 =
            omega (arith, tempmap_addr_lem slot inside) in
          rw (word_aligned, resolve_entry (4 * i) (omega arith))
            (ap (λ (t : ℕ). ok (m.ram t)) (omega (arith, p.whole)))

      pub store_entry :
          (v : ℕ)
          → store (tempmap_addr slot + 4 * i) v m
            ≡ ok (record m { ram = write (addr / 4 + i) v m.ram })
      unfolding store
      store_entry v =
          rw (resolve_entry (4 * i) (omega arith))
            (ap (λ (t : ℕ). ok (record m { ram = write t v m.ram })) (omega (arith, p.whole)))

    pub zero_page_entry :
        zero_page (tempmap_addr slot) m ≡ ok (record m { ram = zeroed (addr / 4) m.ram })
    unfolding zero_page
    zero_page_entry =
        let no_offset : tempmap_addr slot ≡ tempmap_addr slot + 0 = omega arith in
        ap (λ (t : ℕ). resolve t m >>= λ p. ok (record m { ram = zeroed (p / 4) m.ram })) no_offset
        ∙ rw (resolve_entry 0 (omega arith))
            (ap (λ (t : ℕ). ok (record m { ram = zeroed t m.ram })) (omega arith))
