-- ===== src/Memory/VirtualMemory/Supply.antt =====
-- allocatePStructAny (core/tachyon.memory/x86_64/VirtualMemory.cc) for a page that is not at a multiple
-- of 2 MiB.
use tachyon.Base.{
  ℕ, suc, ◌+◌, ◌/◌, ◌%◌, ◌^◌, ◌≤◌, ◌<◌, ◌≡◌, refl, ap, ◌∙◌, ◌≢◌, false, ◌&&◌, List, arith, ltb, leb,
  ◌==◌, if◌then◌else◌, length, get_or, Outcome, ok,
}
use tachyon.Memory.PhysicalMemory.{PhysicalMemory, allocate_aligned}
use tachyon.Memory.TempMap.{Machine, pstruct_size, zero_page, resolve, allocate_pstruct_any}
use tachyon.Memory.TempMap.Slots.{IsValid, unused, Mapped, Keeps, pstruct_map-Maps, resolve-Mapped}
use tachyon.Memory.TempMap.Release.{pstruct_unmap_keeps_entry}

-- The memory with one structure cleared.
abbrev pub zeroed : ℕ → (ℕ → ℕ) → ℕ → ℕ
zeroed place ram x = if leb place x && ltb x (place + pstruct_size / 8) then 0 else ram x

pub Mapped-same :
    {m m' : Machine} (phys virt : ℕ)
    → m'.temp_mappings ≡ m.temp_mappings
    → Mapped m phys virt
    → Mapped m' phys virt
Mapped-same {m} {m'} phys virt e mapped =
    let same_entry : get_or m'.temp_mappings mapped.slot 0 ≡ get_or m.temp_mappings mapped.slot 0 =
      ap (λ (es : List ℕ). get_or es mapped.slot 0) e in
    record {
      slot = mapped.slot;
      inside = mapped.inside;
      present = rw same_entry mapped.present;
      same_page = rw same_entry mapped.same_page;
      address = mapped.address;
    }

-- A page that the allocator supplies for a structure.
pub record IsSupplied (fuel : ℕ) (physical physical' : PhysicalMemory) (addr : ℕ) : Type 0 where
  pub allocated : allocate_aligned fuel pstruct_size pstruct_size physical ≡ ok (physical', addr)
  pub whole : addr % 4096 ≡ 0
  pub word : addr < 2 ^ 64
  pub inner : addr % 0x200000 ≢ 0

-- The page is zeroed; its temporary mapping stays in use.
pub record Allocated (n : Machine) (physical' : PhysicalMemory) (addr : ℕ)
    (r : Outcome (Machine × ℕ)) : Type 0 where
  pub n' : Machine
  pub returns : r ≡ ok (n', addr)
  pub ram_of : n'.ram ≡ zeroed (addr / 8) n.ram
  pub physical_of : n'.physical ≡ physical'
  pub ten : length n'.temp_mappings ≡ 10
  pub keeps : Keeps n n'
  pub one : unused n.temp_mappings ≤ suc (unused n'.temp_mappings)

pub allocate_pstruct_any-Allocated :
    (fuel : ℕ) (n : Machine) (physical' : PhysicalMemory) (addr : ℕ)
    → IsValid n
    → IsSupplied fuel n.physical physical' addr
    → 0 < unused n.temp_mappings
    → Allocated n physical' addr (allocate_pstruct_any fuel n)
allocate_pstruct_any-Allocated fuel n physical' addr valid supplied room =
    let taken = record n { physical = physical' } in
    let (m1, virt, maps) =
      pstruct_map-Maps taken (record { ten = valid.ten; words = valid.words }) addr supplied.word
        room in
    let cleared = record m1 { ram = zeroed (addr / 8) m1.ram } in
    let some_addr : (addr == 0) ≡ false = ground (arith, supplied.inner) in
    let cleared-IsValid : IsValid cleared = record {
      ten = maps.valid.ten;
      words = λ x. ground (arith, maps.valid.words x);
    } in
    record {
      n' = cleared;
      returns =
          unfold allocate_pstruct_any zero_page in
          rw
            (
              supplied.allocated,
              some_addr,
              maps.returns,
              resolved m1 virt maps.mapped,
              pstruct_unmap_keeps_entry cleared addr virt cleared-IsValid
                  (Mapped-same addr virt refl maps.mapped) supplied.inner,
            )
            refl;
      ram_of = ap (zeroed (addr / 8)) maps.same_ram;
      physical_of = maps.same_physical;
      ten = maps.valid.ten;
      keeps = maps.keeps;
      one = maps.one;
    }
  where
    resolved : (m1 : Machine) (virt : ℕ) → Mapped m1 addr virt → resolve virt m1 ≡ ok addr
    resolved m1 virt mapped =
        let no_offset : virt ≡ virt + 0 = omega arith in
        let same_addr : addr + 0 ≡ addr = omega arith in
        ap (λ (t : ℕ). resolve t m1) no_offset
        ∙ resolve-Mapped addr virt 0 mapped (omega arith)
        ∙ ap ok same_addr
