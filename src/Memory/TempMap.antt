-- ===== src/Memory/TempMap.antt =====
-- The temporary mappings through which the kernel reaches paging structures
-- (core/tachyon.memory/x86_64/VirtualMemory.cc): ten entries of a page directory at the top of the
-- address space, each for 2 MiB of physical memory. An access goes through the entry that covers its
-- address, as the processor translates it; an entry that is not present stops the kernel.
pub mod Entries
pub mod Slots
pub mod Release
use tachyon.Base.{
  ℕ, zero, suc, ◌+◌, ◌-◌, ◌*◌, ◌/◌, ◌%◌, ◌^◌, ◌≤◌, ◌<◌, min, bit_and, bit_or, ◌≡◌, refl, sym, ap,
  ◌∙◌, ◌≢◌, ◌↔◌, ◌⊎◌, inl, inr, Bool, true, false, not, ◌&&◌, ◌||◌, Option, none, some, List, [],
  ◌∷◌, ◌++◌, map, arith, ltb, leb, ◌==◌, if◌then◌else◌, ltb→lt, lt→ltb, le→ltb, leb→le, le→leb,
  lt→leb, ==_iff, same, same→eq, Bool-cases, Option-cases, passes_below, passes_below_sound, length,
  get_elem?, get_or, set, take, drop, replicate, All, length-append, length-set, length-replicate,
  get_or-set, get_or-replicate, get_or-replicate_lt, get_or_ext, All-set, All-get_or, All-replicate,
  Outcome, ok, fatal, out_of_fuel, ◌>>=◌, ◌>>◌, kassert, >>=-eq-ok,
}
use tachyon.Base.Bits.{word, not64, sub64, add64}
use tachyon.Memory.PhysicalMemory.{PhysicalMemory, allocate_aligned, free}

abbrev pub page_size_2m : ℕ
page_size_2m = 0x200000

abbrev pub pstruct_size : ℕ
pstruct_size = 0x1000

abbrev pub pstruct_flags : ℕ
pstruct_flags = 0xFFF

abbrev pub tempmap_pages : ℕ
tempmap_pages = 0xa

abbrev pub page_present : ℕ
page_present = 1

abbrev pub page_writable : ℕ
page_writable = 2

abbrev pub page_large : ℕ
page_large = 128

abbrev pub page_global : ℕ
page_global = 256

unfoldable pub is_present : ℕ → Bool
is_present e = not (bit_and e page_present == 0)

unfoldable pub is_large : ℕ → Bool
is_large e = not (bit_and e page_large == 0)

-- `& ~(PAGE_SIZE_2M - 1)` and `& (PAGE_SIZE_2M - 1)`.
unfoldable pub phys_page : ℕ → ℕ
phys_page phys = bit_and phys (not64 (page_size_2m - 1))

unfoldable pub phys_off : ℕ → ℕ
phys_off phys = bit_and phys (page_size_2m - 1)

-- `& ~PSTRUCT_FLAGS`.
unfoldable pub pstruct_addr : ℕ → ℕ
pstruct_addr e = bit_and e (not64 pstruct_flags)

unfoldable pub tempmap_addr : ℕ → ℕ
tempmap_addr x =
    add64
      (sub64 (bit_and (not64 0) (not64 (page_size_2m - 1))) ((tempmap_pages - 1) * page_size_2m))
      (x * page_size_2m)

-- tempMappings, the words of the physical memory (by address / 8), and PhysicalMemory.
pub record Machine : Type 0 where
  pub temp_mappings : List ℕ
  pub ram : ℕ → ℕ
  pub physical : PhysicalMemory

-- The first loop of pstructMap: the index of an entry for the page.
unfoldable pub find_page : List ℕ → ℕ → ℕ → Option ℕ
find_page [] i page = none
find_page (e ∷ es) i page =
    let rest = find_page es (i + 1) page in
    if is_present e && (phys_page e == page) then some i else rest

-- The second loop: the index of an entry that is not used.
unfoldable pub find_unused : List ℕ → ℕ → Option ℕ
find_unused [] i = none
find_unused (e ∷ es) i = let rest = find_unused es (i + 1) in if e == 0 then some i else rest

unfoldable pub temp_entry : ℕ → ℕ
temp_entry page =
    bit_or page (bit_or (bit_or (bit_or page_present page_large) page_writable) page_global)

-- pstructMap behind the second search, and behind the first.
abbrev pub map_unused : Option ℕ → ℕ → Machine → Outcome (Machine × ℕ)
map_unused none phys m = fatal
map_unused (some i) phys m = ok (
  record m { temp_mappings = set m.temp_mappings i (temp_entry (phys_page phys)) },
  bit_or (tempmap_addr i) (phys_off phys),
)

abbrev pub map_found : Option ℕ → ℕ → Machine → Outcome (Machine × ℕ)
map_found none phys m = map_unused (find_unused m.temp_mappings 0) phys m
map_found (some i) phys m = ok (m, bit_or (tempmap_addr i) (phys_off phys))

unfoldable pub pstruct_map : ℕ → Machine → Outcome (Machine × ℕ)
pstruct_map phys m = map_found (find_page m.temp_mappings 0 (phys_page phys)) phys m

unfoldable pub release : List ℕ → ℕ → ℕ → List ℕ
release [] i virt = []
release (e ∷ es) i virt =
    let rest = release es (i + 1) virt in if tempmap_addr i == virt then 0 ∷ es else e ∷ rest

unfoldable pub pstruct_unmap : ℕ → Machine → Machine
pstruct_unmap virt m = record m { temp_mappings = release m.temp_mappings 0 virt }

-- The physical address that an address of the window is mapped to.
unfoldable pub resolve : ℕ → Machine → Outcome ℕ
resolve virt m =
    if ltb virt (tempmap_addr 0)
    then fatal
    else (let e = get_or m.temp_mappings ((virt - tempmap_addr 0) / page_size_2m) 0 in
        if is_present e then ok (phys_page e + virt % page_size_2m) else fatal)

-- The aligned word at an address.
unfoldable pub load_word : ℕ → Machine → Outcome ℕ
load_word virt m = resolve virt m >>= λ p. ok (m.ram (p / 8))

-- A load of eight bytes: one word, or the parts of two.
unfoldable pub load : ℕ → Machine → Outcome ℕ
load virt m =
    let k = virt % 8 in
    if k == 0
    then load_word virt m
    else load_word (virt - k) m >>= λ lo.
        load_word (virt - k + 8) m
        >>= (λ hi. ok (lo / 2 ^ (8 * k) + hi % 2 ^ (8 * k) * 2 ^ (64 - 8 * k)))

abbrev pub write : ℕ → ℕ → (ℕ → ℕ) → ℕ → ℕ
write a v ram x = if x == a then v else ram x

-- A store of eight bytes at a multiple of eight.
unfoldable pub store : ℕ → ℕ → Machine → Outcome Machine
store virt v m = resolve virt m >>= λ p. ok (record m { ram = write (p / 8) v m.ram })

-- MemoryHelper::zero over one structure.
unfoldable pub zero_page : ℕ → Machine → Outcome Machine
zero_page virt m = resolve virt m >>= λ p. ok (record m {
  ram = λ x. if leb (p / 8) x && ltb x (p / 8 + pstruct_size / 8) then 0 else m.ram x;
})

-- The fuel is that of the search for a free page.
unfoldable pub allocate_pstruct_any : ℕ → Machine → Outcome (Machine × ℕ)
allocate_pstruct_any fuel m = do
  (pm, addr) ← allocate_aligned fuel pstruct_size pstruct_size m.physical
  kassert (not (addr == 0))
  (m1, virt) ← pstruct_map addr (record m { physical = pm })
  m2 ← zero_page virt m1
  ok (pstruct_unmap virt m2, addr)

unfoldable pub free_pstruct_any : ℕ → Machine → Outcome Machine
free_pstruct_any addr m =
    if addr == 0
    then ok m
    else free (pstruct_addr addr) pstruct_size m.physical
      >>= (λ pm. ok (record m { physical = pm }))
