-- ===== src/Memory/TempMap/Slots.antt =====
-- pstructMap and pstructUnmap (core/tachyon.memory/x86_64/VirtualMemory.cc) on the ten entries.
use tachyon.Base.{
  ℕ, zero, suc, ◌+◌, ◌-◌, ◌*◌, ◌/◌, ◌%◌, ◌^◌, ◌≤◌, ◌<◌, ◌≡◌, refl, sym, ap, ◌∙◌, ◌⊎◌, inl, inr,
  true, false, ◌&&◌, none, some, List, [], ◌∷◌, arith, ◌==◌, if◌then◌else◌, le→ltb, ==_iff,
  Bool-cases, length, get_or, set, length-set, get_or-set, ok,
}
use tachyon.Memory.TempMap.{
  Machine, is_present, phys_page, tempmap_addr, find_page, find_unused, temp_entry, pstruct_map,
  resolve,
}
use tachyon.Memory.TempMap.Entries.{
  is_present_lem, phys_page_lem, tempmap_addr_lem, bit_or-tempmap_addr, temp_entry_lem,
}

pub record IsValid (m : Machine) : Type 0 where
  pub ten : length m.temp_mappings ≡ 10
  pub words : (x : ℕ) → m.ram x < 2 ^ 64

-- How many entries are not used.
unfoldable pub unused : List ℕ → ℕ
unused [] = 0
unused (e ∷ es) = (if e == 0 then 1 else 0) + unused es

-- The virtual address stands for the physical one.
pub record Mapped (m : Machine) (phys virt : ℕ) : Type 0 where
  pub slot : ℕ
  pub inside : slot < 10
  pub present : is_present (get_or m.temp_mappings slot 0) ≡ true
  pub same_page : phys_page (get_or m.temp_mappings slot 0) ≡ phys / 0x200000 * 0x200000
  pub address : virt ≡ tempmap_addr slot + phys % 0x200000

-- No entry in use is lost.
abbrev pub Keeps : Machine → Machine → Type 0
Keeps m m' =
    (k : ℕ)
    → is_present (get_or m.temp_mappings k 0) ≡ true
    → get_or m'.temp_mappings k 0 ≡ get_or m.temp_mappings k 0

pub record Maps (m : Machine) (phys : ℕ) (m' : Machine) (virt : ℕ) : Type 0 where
  pub returns : pstruct_map phys m ≡ ok (m', virt)
  pub mapped : Mapped m' phys virt
  pub keeps : Keeps m m'
  pub same_ram : m'.ram ≡ m.ram
  pub same_physical : m'.physical ≡ m.physical
  pub valid : IsValid m'
  pub one : unused m.temp_mappings ≤ suc (unused m'.temp_mappings)

not_present_zero : is_present 0 ≡ false
not_present_zero = is_present_lem 0

pub Mapped-Keeps :
    {m m' : Machine} (phys virt : ℕ) → Keeps m m' → Mapped m phys virt → Mapped m' phys virt
Mapped-Keeps phys virt keeps mapped =
    let e = keeps mapped.slot mapped.present in
    record {
      slot = mapped.slot;
      inside = mapped.inside;
      present = ap is_present e ∙ mapped.present;
      same_page = ap phys_page e ∙ mapped.same_page;
      address = mapped.address;
    }

-- What the search for an entry of the page finds.
pub record Entry (page : ℕ) (es : List ℕ) (k : ℕ) : Type 0 where
  pub below : k < length es
  pub present : is_present (get_or es k 0) ≡ true
  pub same_page : phys_page (get_or es k 0) ≡ page

find_page_lem :
    (page : ℕ) (es : List ℕ) (i : ℕ)
    → (find_page es i page ≡ none)
      ⊎ ((k : ℕ) × (find_page es i page ≡ some (i + k)) × Entry page es k)
unfolding find_page
find_page_lem page [] i = inl refl
find_page_lem page (e ∷ es) i = elim (Bool-cases (is_present e && (phys_page e == page))) [
  | inl h ↦ inr (
    0,
    rw h (ap some (omega arith)),
    record { below = omega arith; present = ground arith; same_page = ground arith },
  )
  | inr h ↦ elim (find_page_lem page es (i + 1)) [
    | inl r ↦ inl (rw (h, r))
    | inr (k, r, entry) ↦ inr (
      suc k,
      rw (h, r) (ap some (omega arith)),
      record {
        below = omega (arith, entry.below);
        present = entry.present;
        same_page = entry.same_page;
      },
    )
  ]
]

pub find_unused_lem :
    (es : List ℕ) (i : ℕ)
    → ((find_unused es i ≡ none) × (unused es ≡ 0))
      ⊎ ((k : ℕ) × (find_unused es i ≡ some (i + k)) × (k < length es) × (get_or es k 0 ≡ 0))
unfolding find_unused unused
find_unused_lem [] i = inl (refl, refl)
find_unused_lem (e ∷ es) i = elim (Bool-cases (e == 0)) [
  | inl h ↦ inr (0, rw h (ap some (omega arith)), omega arith, ground arith)
  | inr h ↦ elim (find_unused_lem es (i + 1)) [
    | inl (r, none_left) ↦ inl (rw (h, r), rw h (omega (arith, none_left)))
    | inr (k, r, below, empty) ↦ inr (suc k, rw (h, r) (ap some (omega arith)), omega arith, empty)
  ]
]

pub unused-set : (es : List ℕ) (k v : ℕ) → unused es ≤ suc (unused (set es k v))
unfolding unused
unused-set [] k v = omega arith
unused-set (e ∷ es) zero v = ground arith
unused-set (e ∷ es) (suc k) v = omega (arith, unused-set es k v)

module _ (m : Machine) (valid : IsValid m) (phys : ℕ) (word : phys < 2 ^ 64) where
  page_of : phys_page phys ≡ phys / 0x200000 * 0x200000
  page_of = phys_page_lem phys word

  reused_returns :
      (k : ℕ)
      → find_page m.temp_mappings 0 (phys_page phys) ≡ some k
      → k < 10
      → pstruct_map phys m ≡ ok (m, tempmap_addr k + phys % 0x200000)
  unfolding pstruct_map
  reused_returns k found inside =
      rw found (ap (λ (v : ℕ). ok (m, v)) (bit_or-tempmap_addr k phys inside))

  reused :
      (k : ℕ)
      → find_page m.temp_mappings 0 (phys_page phys) ≡ some k
      → Entry (phys_page phys) m.temp_mappings k
      → Maps m phys m (tempmap_addr k + phys % 0x200000)
  reused k found entry =
      let inside : k < 10 = omega (arith, entry.below, valid.ten) in
      record {
        returns = reused_returns k found inside;
        mapped = record {
          slot = k;
          inside = inside;
          present = entry.present;
          same_page = entry.same_page ∙ page_of;
          address = refl;
        };
        keeps = λ j p. refl;
        same_ram = refl;
        same_physical = refl;
        valid = valid;
        one = omega arith;
      }

  abbrev fresh : ℕ
  fresh = temp_entry (phys_page phys)

  fresh_eq : fresh ≡ phys / 0x200000 * 2 ^ 21 + 0x183
  fresh_eq = ap temp_entry page_of ∙ temp_entry_lem (phys / 0x200000)

  fresh_present : is_present fresh ≡ true
  fresh_present = ap is_present fresh_eq ∙ is_present_lem _ ∙ ground arith

  fresh_page : phys_page fresh ≡ phys / 0x200000 * 0x200000
  fresh_page = ap phys_page fresh_eq ∙ phys_page_lem _ (omega arith) ∙ omega arith

  taken :
      (k : ℕ)
      → find_page m.temp_mappings 0 (phys_page phys) ≡ none
      → find_unused m.temp_mappings 0 ≡ some k
      → k < length m.temp_mappings
      → get_or m.temp_mappings k 0 ≡ 0
      → Maps m phys
          (record m { temp_mappings = set m.temp_mappings k fresh })
          (tempmap_addr k + phys % 0x200000)
  unfolding pstruct_map
  taken k missing found below empty =
      let inside : k < 10 = omega (arith, valid.ten) in
      let here : get_or (set m.temp_mappings k fresh) k 0 ≡ fresh =
        get_or-set m.temp_mappings k k fresh 0 below ∙ ground arith in
      record {
        returns =
            rw (missing, found)
              (ap (λ (v : ℕ). ok (record m { temp_mappings = set m.temp_mappings k fresh }, v))
                (bit_or-tempmap_addr k phys inside));
        mapped = record {
          slot = k;
          inside = inside;
          present = ap is_present here ∙ fresh_present;
          same_page = ap phys_page here ∙ fresh_page;
          address = refl;
        };
        keeps = λ j p. get_or-set m.temp_mappings k j fresh 0 below ∙ elsewhere j p;
        same_ram = refl;
        same_physical = refl;
        valid = record {
          ten = length-set m.temp_mappings k fresh ∙ valid.ten;
          words = valid.words;
        };
        one = unused-set m.temp_mappings k fresh;
      }
    where
      elsewhere :
          (j : ℕ)
          → is_present (get_or m.temp_mappings j 0) ≡ true
          → (if k == j then fresh else get_or m.temp_mappings j 0) ≡ get_or m.temp_mappings j 0
      elsewhere j p = elim (Bool-cases (k == j)) [
        | inl e ↦
            let same_index : k ≡ j = (==_iff k j).0 e in
            let zero_here : get_or m.temp_mappings j 0 ≡ 0 =
              ap (λ (t : ℕ). get_or m.temp_mappings t 0) (sym same_index) ∙ empty in
            absurd (ground (arith, not_present_zero, ap is_present zero_here, p))
        | inr e ↦ rw e
      ]

  -- pstructMap returns whenever an entry is unused; it maps the address, loses no entry in use, and
  -- takes at most one.
  pub pstruct_map-Maps :
      0 < unused m.temp_mappings → (m' : Machine) × (virt : ℕ) × Maps m phys m' virt
  pstruct_map-Maps room = elim (find_page_lem (phys_page phys) m.temp_mappings 0) [
    | inr (k, found, entry) ↦
        (m, tempmap_addr k + phys % 0x200000, reused k (found ∙ ap some (omega arith)) entry)
    | inl missing ↦ elim (find_unused_lem m.temp_mappings 0) [
      | inl (r, full) ↦ absurd (omega arith)
      | inr (k, found, below, empty) ↦ (
        record m { temp_mappings = set m.temp_mappings k fresh },
        tempmap_addr k + phys % 0x200000,
        taken k missing (found ∙ ap some (omega arith)) below empty,
      )
    ]
  ]

-- An access at an offset from a mapped address.
pub resolve-Mapped :
    {m : Machine} (phys virt off : ℕ)
    → Mapped m phys virt
    → phys % 0x200000 + off < 0x200000
    → resolve (virt + off) m ≡ ok (phys + off)
unfolding resolve
resolve-Mapped {m} phys virt off mapped inside =
    rw
      (mapped.address, tempmap_addr_lem mapped.slot mapped.inside, tempmap_addr_lem 0 (omega arith))
      (let slot_of : ((2 ^ 43 - 10 + mapped.slot) * 2 ^ 21
                + phys % 0x200000
                + off
                - (2 ^ 43 - 10 + 0) * 2 ^ 21)
              / 0x200000
            ≡ mapped.slot =
          omega (arith, inside, mapped.inside) in
        rw
          (
            slot_of,
            mapped.present,
            mapped.same_page,
            le→ltb ((2 ^ 43 - 10 + mapped.slot) * 2 ^ 21 + phys % 0x200000 + off)
                ((2 ^ 43 - 10 + 0) * 2 ^ 21) (omega arith),
          )
          (ap ok (omega (arith, inside))))
