-- ===== src/Memory/X86/TempMap.antt =====
-- The temporary mappings of the x86 build (core/tachyon.memory/x86/VirtualMemory.cc): ten entries of
-- a page table at the top of the address space, each for one page of 4 KiB. The memory is a function
-- from the numbers of its four-byte words (address / 4).
pub mod Slots
use tachyon.Base.{
  ℕ, zero, suc, ◌+◌, ◌-◌, ◌*◌, ◌/◌, ◌%◌, ◌^◌, ◌≤◌, ◌<◌, min, bit_and, bit_or, ◌≡◌, refl, sym, ap,
  ◌∙◌, ◌≢◌, ◌↔◌, ◌⊎◌, inl, inr, Bool, true, false, not, ◌&&◌, ◌||◌, Option, none, some, List, [],
  ◌∷◌, ◌++◌, map, arith, ltb, leb, ◌==◌, if◌then◌else◌, ltb→lt, lt→ltb, le→ltb, leb→le, le→leb,
  lt→leb, ==_iff, same, same→eq, Bool-cases, Option-cases, passes_below, passes_below_sound, length,
  get_elem?, get_or, set, take, drop, replicate, All, length-append, length-set, length-replicate,
  get_or-set, get_or-replicate, get_or-replicate_lt, get_or_ext, All-set, All-get_or, All-replicate,
  Outcome, ok, fatal, out_of_fuel, ◌>>=◌, ◌>>◌, kassert, >>=-eq-ok,
}
use tachyon.Base.Bits.{not32, sub32, add32}
use tachyon.Memory.TempMap.{
  pstruct_size, pstruct_flags, tempmap_pages, page_present, page_writable, page_global, is_present,
  find_unused,
}
use tachyon.Memory.PhysicalPages.{PhysicalPages}

abbrev pub page_size_4k : ℕ
page_size_4k = 0x1000

-- `& ~(PAGE_SIZE_4K - 1)` and `& (PAGE_SIZE_4K - 1)`.
unfoldable pub phys_page : ℕ → ℕ
phys_page phys = bit_and phys (not32 (page_size_4k - 1))

unfoldable pub phys_off : ℕ → ℕ
phys_off phys = bit_and phys (page_size_4k - 1)

-- `& ~PSTRUCT_FLAGS`.
unfoldable pub pstruct_addr : ℕ → ℕ
pstruct_addr e = bit_and e (not32 pstruct_flags)

unfoldable pub tempmap_addr : ℕ → ℕ
tempmap_addr x =
    add32
      (sub32 (bit_and (not32 0) (not32 (page_size_4k - 1))) ((tempmap_pages - 1) * page_size_4k))
      (x * page_size_4k)

-- tempMappings, the words of the physical memory, and the state of PhysicalMemory.
pub record Machine (S : Type 0) : Type 0 where
  pub temp_mappings : List ℕ
  pub ram : ℕ → ℕ
  pub physical : S

-- The first loop of pstructMap.
unfoldable pub find_page : List ℕ → ℕ → ℕ → Option ℕ
find_page [] i page = none
find_page (e ∷ es) i page =
    let rest = find_page es (i + 1) page in
    if is_present e && (phys_page e == page) then some i else rest

unfoldable pub temp_entry : ℕ → ℕ
temp_entry page = bit_or (bit_or (bit_or page page_present) page_writable) page_global

unfoldable pub release : List ℕ → ℕ → ℕ → List ℕ
release [] i virt = []
release (e ∷ es) i virt =
    let rest = release es (i + 1) virt in if tempmap_addr i == virt then 0 ∷ es else e ∷ rest

abbrev pub write : ℕ → ℕ → (ℕ → ℕ) → ℕ → ℕ
write a v ram x = if x == a then v else ram x

abbrev pub zeroed : ℕ → (ℕ → ℕ) → ℕ → ℕ
zeroed first ram x = if leb first x && ltb x (first + pstruct_size / 4) then 0 else ram x

module _ {S : Type 0} where
  abbrev pub map_unused : Option ℕ → ℕ → Machine S → Outcome (Machine S × ℕ)
  map_unused none phys m = fatal
  map_unused (some i) phys m = ok (
    record m { temp_mappings = set m.temp_mappings i (temp_entry (phys_page phys)) },
    bit_or (tempmap_addr i) (phys_off phys),
  )

  abbrev pub map_found : Option ℕ → ℕ → Machine S → Outcome (Machine S × ℕ)
  map_found none phys m = map_unused (find_unused m.temp_mappings 0) phys m
  map_found (some i) phys m = ok (m, bit_or (tempmap_addr i) (phys_off phys))

  unfoldable pub pstruct_map : ℕ → Machine S → Outcome (Machine S × ℕ)
  pstruct_map phys m = map_found (find_page m.temp_mappings 0 (phys_page phys)) phys m

  unfoldable pub pstruct_unmap : ℕ → Machine S → Machine S
  pstruct_unmap virt m = record m { temp_mappings = release m.temp_mappings 0 virt }

  -- The physical address that an address of the window is mapped to.
  unfoldable pub resolve : ℕ → Machine S → Outcome ℕ
  resolve virt m =
      if ltb virt (tempmap_addr 0)
      then fatal
      else (let e = get_or m.temp_mappings ((virt - tempmap_addr 0) / page_size_4k) 0 in
          if is_present e then ok (phys_page e + virt % page_size_4k) else fatal)

  unfoldable pub load_word : ℕ → Machine S → Outcome ℕ
  load_word virt m = resolve virt m >>= λ p. ok (m.ram (p / 4))

  -- A load of four bytes: one word, or the parts of two.
  unfoldable pub load : ℕ → Machine S → Outcome ℕ
  load virt m =
      let k = virt % 4 in
      if k == 0
      then load_word virt m
      else load_word (virt - k) m >>= λ lo.
          load_word (virt - k + 4) m
          >>= (λ hi. ok (lo / 2 ^ (8 * k) + hi % 2 ^ (8 * k) * 2 ^ (32 - 8 * k)))

  -- A store of four bytes at a multiple of four.
  unfoldable pub store : ℕ → ℕ → Machine S → Outcome (Machine S)
  store virt v m = resolve virt m >>= λ p. ok (record m { ram = write (p / 4) v m.ram })

  -- MemoryHelper::zero over one structure.
  unfoldable pub zero_page : ℕ → Machine S → Outcome (Machine S)
  zero_page virt m = resolve virt m >>= λ p. ok (record m { ram = zeroed (p / 4) m.ram })

module _ (pages : PhysicalPages) where
  open pages use {State, allocate_page, free_page}

  unfoldable pub allocate_pstruct_any : Machine State → Outcome (Machine State × ℕ)
  allocate_pstruct_any m = do
    (s, addr) ← allocate_page m.physical
    kassert (not (addr == 0))
    (m1, virt) ← pstruct_map addr (record m { physical = s })
    m2 ← zero_page virt m1
    ok (pstruct_unmap virt m2, addr)

  unfoldable pub free_pstruct_any : ℕ → Machine State → Outcome (Machine State)
  free_pstruct_any addr m =
      if addr == 0
      then ok m
      else free_page (pstruct_addr addr) m.physical >>= (λ s. ok (record m { physical = s }))
