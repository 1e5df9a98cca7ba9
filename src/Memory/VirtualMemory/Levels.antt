-- ===== src/Memory/VirtualMemory/Levels.antt =====
-- The walk of splitVirtualAndMap (core/tachyon.memory/x86_64/VirtualMemory.cc) over structures that
-- are present.
use tachyon.Base.{
  ℕ, ◌+◌, ◌*◌, ◌/◌, ◌%◌, ◌^◌, ◌<◌, bit_and, ◌≡◌, ap, Bool, true, false, Option, none, some, arith,
  ◌==◌, Outcome, ok,
}
use tachyon.Base.Bits.{bit_and_mask}
use tachyon.Memory.TempMap.{Machine, is_present, pstruct_addr, load, load_word, store, write}
use tachyon.Memory.TempMap.Entries.{tempmap_addr_lem, pstruct_addr_lem}
use tachyon.Memory.TempMap.Slots.{IsValid, unused, Mapped, Maps, pstruct_map-Maps, resolve-Mapped}
use tachyon.Memory.Paging.{entry}
use tachyon.Memory.VirtualMemory.{map_structure, enter, descend}

pub index_below : (x : ℕ) → bit_and x 0x1FF < 512
index_below x = omega (arith, bit_and_mask 9 x)

pub Mapped-pos : (m : Machine) (phys virt : ℕ) → Mapped m phys virt → 0 < virt
Mapped-pos m phys virt mapped =
    omega (arith, mapped.address, tempmap_addr_lem mapped.slot mapped.inside)

aligned : (m : Machine) (phys virt : ℕ) → phys % 4096 ≡ 0 → Mapped m phys virt → virt % 4096 ≡ 0
aligned m phys virt whole mapped =
    omega (arith, mapped.address, tempmap_addr_lem mapped.slot mapped.inside)

-- Access to an entry of a mapped structure.
module _ (m : Machine) (table virt i : ℕ) (whole : table % 4096 ≡ 0) (mapped : Mapped m table virt)
    (inside : i < 512) where
  pub load-Mapped : load (virt + 8 * i) m ≡ ok (entry m.ram table i)
  unfolding load load_word
  load-Mapped =
      let word_aligned : (virt + 8 * i) % 8 ≡ 0 =
        omega (arith, aligned m table virt whole mapped) in
      rw (word_aligned, resolve-Mapped table virt (8 * i) mapped (omega arith))
        (ap (λ (t : ℕ). ok (m.ram t)) (omega arith))

  pub store-Mapped :
      (v : ℕ) → store (virt + 8 * i) v m ≡ ok (record m { ram = write (table / 8 + i) v m.ram })
  unfolding store
  store-Mapped v =
      rw (resolve-Mapped table virt (8 * i) mapped (omega arith))
        (ap (λ (t : ℕ). ok (record m { ram = write t v m.ram })) (omega arith))

-- A structure that the walk has mapped: the result of a level.
pub record Entered (m : Machine) (phys : ℕ) (r : Outcome (Machine × Option ℕ)) : Type 0 where
  pub m' : Machine
  pub virt : ℕ
  pub returns : r ≡ ok (m', some virt)
  pub maps : Maps m phys m' virt

pub map_structure-Entered :
    (m : Machine) (phys : ℕ)
    → IsValid m
    → phys < 2 ^ 64
    → 0 < unused m.temp_mappings
    → Entered m phys (map_structure phys m)
unfolding map_structure
map_structure-Entered m phys valid word room =
    let (m', virt, maps) = pstruct_map-Maps m valid phys word room in
    let virt_pos : (virt == 0) ≡ false = ground (arith, Mapped-pos m' phys virt maps.mapped) in
    record { m' = m'; virt = virt; returns = rw (maps.returns, virt_pos); maps = maps }

module _ (fuel : ℕ) (force : Bool) (m : Machine) (table virt i : ℕ) (valid : IsValid m)
    (whole : table % 4096 ≡ 0) (mapped : Mapped m table virt) (inside : i < 512) where
  pub descend_present :
      is_present (entry m.ram table i) ≡ true
      → 0 < unused m.temp_mappings
      → Entered m (pstruct_addr (entry m.ram table i)) (descend fuel force virt i m)
  descend_present present room =
      let word : entry m.ram table i < 2 ^ 64 = valid.words _ in
      let addr_word : pstruct_addr (entry m.ram table i) < 2 ^ 64 =
        omega (arith, pstruct_addr_lem (entry m.ram table i) word) in
      let below =
        map_structure-Entered m (pstruct_addr (entry m.ram table i)) valid addr_word room in
      record {
        m' = below.m';
        virt = below.virt;
        returns =
            unfold descend enter in
            rw (load-Mapped m table virt i whole mapped inside, present) below.returns;
        maps = below.maps;
      }

pub descend_absent :
    (fuel : ℕ) (m : Machine) (table virt i : ℕ)
    → table % 4096 ≡ 0
    → Mapped m table virt
    → i < 512
    → is_present (entry m.ram table i) ≡ false
    → descend fuel true virt i m ≡ ok (m, none)
unfolding descend
descend_absent fuel m table virt i whole mapped inside missing =
    rw (load-Mapped m table virt i whole mapped inside, missing)
