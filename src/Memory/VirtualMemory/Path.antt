-- ===== src/Memory/VirtualMemory/Path.antt =====
-- The levels of splitVirtualAndMap as a path of mapped structures (core/tachyon.memory/x86_64/VirtualMemory.cc).
use tachyon.Base.{
  ℕ, suc, ◌+◌, ◌*◌, ◌%◌, ◌^◌, ◌≤◌, ◌<◌, ◌≡◌, sym, ap, ◌∙◌, Bool, true, false, Option, none, some,
  arith, Outcome, ok,
}
use mathlib.Core.Path.{subst}
use tachyon.Memory.TempMap.{Machine, is_present, pstruct_addr, load}
use tachyon.Memory.TempMap.Entries.{pstruct_addr_lem}
use tachyon.Memory.TempMap.Slots.{IsValid, unused, Mapped, Mapped-Keeps, Keeps}
use tachyon.Memory.Paging.{entry}
use tachyon.Memory.VirtualMemory.{map_structure, descend}
use tachyon.Memory.VirtualMemory.Levels.{
  load-Mapped, map_structure-Entered, descend_present, descend_absent,
}

pub whole_addr : (m : Machine) → IsValid m → (x : ℕ) → pstruct_addr (m.ram x) % 4096 ≡ 0
whole_addr m valid x = omega (arith, pstruct_addr_lem (m.ram x) (valid.words x))

-- What is known on the way: the memory is that of the start, and the structure is mapped.
pub record At (m : Machine) (table : ℕ) (n : Machine) (virt left : ℕ) : Type 0 where
  pub valid : IsValid n
  pub whole : table % 4096 ≡ 0
  pub mapped : Mapped n table virt
  pub same_ram : n.ram ≡ m.ram
  pub same_physical : n.physical ≡ m.physical
  pub room : left ≤ unused n.temp_mappings

pub record Level (m n : Machine) (table left : ℕ) (r : Outcome (Machine × Option ℕ)) : Type 0 where
  pub n' : Machine
  pub virt : ℕ
  pub returns : r ≡ ok (n', some virt)
  pub at : At m table n' virt left
  pub keeps : Keeps n n'

module _ (m n : Machine) (table virt left i : ℕ) (at : At m table n virt left)
    (inside : i < 512) where
  pub entry-At : entry n.ram table i ≡ entry m.ram table i
  entry-At = ap (λ (ram : ℕ → ℕ). entry ram table i) at.same_ram

  pub load-At : load (virt + 8 * i) n ≡ ok (entry m.ram table i)
  load-At = load-Mapped n table virt i at.whole at.mapped inside ∙ ap ok entry-At

  pub descend-absent :
      is_present (entry m.ram table i) ≡ false → descend 0 true virt i n ≡ ok (n, none)
  descend-absent missing =
      descend_absent 0 n table virt i at.whole at.mapped inside (ap is_present entry-At ∙ missing)

module _ (fuel : ℕ) (force : Bool) (m n : Machine) (table virt left i : ℕ)
    (at : At m table n virt (suc left)) (inside : i < 512) where
  pub descend-Level :
      is_present (entry m.ram table i) ≡ true
      → Level m n (pstruct_addr (entry m.ram table i)) left (descend fuel force virt i n)
  descend-Level present =
      let e = entry-At m n table virt (suc left) i at inside in
      let here =
        descend_present fuel force n table virt i at.valid at.whole at.mapped inside
          (ap is_present e ∙ present) (omega (arith, at.room)) in
      let addr = ap pstruct_addr e in
      record {
        n' = here.m';
        virt = here.virt;
        returns = here.returns;
        at = record {
          valid = here.maps.valid;
          whole = ap (λ (t : ℕ). t % 4096) (sym addr) ∙ whole_addr n at.valid _;
          mapped = subst (λ (t : ℕ). Mapped here.m' t here.virt) addr here.maps.mapped;
          same_ram = here.maps.same_ram ∙ at.same_ram;
          same_physical = here.maps.same_physical ∙ at.same_physical;
          room = omega (arith, at.room, here.maps.one);
        };
        keeps = here.maps.keeps;
      }

pub At-Keeps :
    (m n n' : Machine) (table virt left left' table' virt' : ℕ)
    → At m table n virt left
    → At m table' n' virt' left'
    → Keeps n n'
    → At m table n' virt left'
At-Keeps m n n' table virt left left' table' virt' at at' keeps = record {
  valid = at'.valid;
  whole = at.whole;
  mapped = Mapped-Keeps table virt keeps at.mapped;
  same_ram = at'.same_ram;
  same_physical = at'.same_physical;
  room = at'.room;
}

module _ (m : Machine) (space : ℕ) (valid : IsValid m) (whole : space % 4096 ≡ 0)
    (word : space < 2 ^ 64) (left : ℕ) (room : suc left ≤ unused m.temp_mappings) where
  pub map_structure-Level : Level m m space left (map_structure space m)
  map_structure-Level =
      let here = map_structure-Entered m space valid word (omega (arith, room)) in
      record {
        n' = here.m';
        virt = here.virt;
        returns = here.returns;
        at = record {
          valid = here.maps.valid;
          whole = whole;
          mapped = here.maps.mapped;
          same_ram = here.maps.same_ram;
          same_physical = here.maps.same_physical;
          room = omega (arith, room, here.maps.one);
        };
        keeps = here.maps.keeps;
      }
