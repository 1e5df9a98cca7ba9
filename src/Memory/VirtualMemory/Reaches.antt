-- ===== src/Memory/VirtualMemory/Reaches.antt =====
-- splitVirtualAndMap (core/tachyon.memory/x86_64/VirtualMemory.cc) where every structure is present and
-- the page is small.
use mathlib.Core.Path.{subst}
use tachyon.Base.{
  ℕ, suc, ◌+◌, ◌*◌, ◌/◌, ◌%◌, ◌^◌, ◌≤◌, ◌<◌, ◌≡◌, sym, ap, ◌∙◌, inl, inr, Bool, true, false, ◌&&◌,
  some, arith, ◌==◌, if◌then◌else◌, ==_iff, Bool-cases, Option, Outcome, ok,
}
use tachyon.Memory.TempMap.{Machine, is_present, is_large, pstruct_addr, load, store, write}
use tachyon.Memory.TempMap.Slots.{IsValid, unused}
use tachyon.Memory.Paging.{
  small_page, entry, walk, walk_pd, walk_pdpt, pml4_index, pdpt_index, pd_index, pt_index,
}
use tachyon.Memory.VirtualMemory.{
  Structures, map_structure, descend, descend_pd, split_virtual_and_map,
}
use tachyon.Memory.VirtualMemory.Path.{
  At, Level, load-At, descend-Level, At-Keeps, map_structure-Level,
}
use tachyon.Memory.VirtualMemory.Levels.{index_below, store-Mapped}

-- A walk whose structures are all present and which ends at an entry of a page table.
pub record Reaches (ram : ℕ → ℕ) (space virt place : ℕ) : Type 0 where
  pub e4 : ℕ
  pub e3 : ℕ
  pub e2 : ℕ
  pub at4 : entry ram space (pml4_index virt) ≡ e4
  pub at3 : entry ram (pstruct_addr e4) (pdpt_index virt) ≡ e3
  pub at2 : entry ram (pstruct_addr e3) (pd_index virt) ≡ e2
  pub present4 : is_present e4 ≡ true
  pub present3 : is_present e3 ≡ true
  pub present2 : is_present e2 ≡ true
  pub small : is_large e2 ≡ false
  pub place_of : place ≡ pstruct_addr e2 / 8 + pt_index virt

pub walk-Reaches :
    (ram : ℕ → ℕ) (space virt place : ℕ)
    → Reaches ram space virt place
    → walk ram space virt ≡ small_page (ram place)
unfolding walk walk_pdpt walk_pd
walk-Reaches ram space virt place r =
    rw (r.at4, r.present4, r.at3, r.present3, r.at2, r.present2, r.small, r.place_of)

-- A write over an entry that is not present leaves the entries in use.
module _ (ram : ℕ → ℕ) (place v : ℕ) (vacant : is_present (ram place) ≡ false) where
  pub write_keeps : (x e : ℕ) → ram x ≡ e → is_present e ≡ true → write place v ram x ≡ e
  write_keeps x e here present = elim (Bool-cases (x == place)) [
    | inl h ↦
        let same_place : x ≡ place = (==_iff x place).0 h in
        absurd (
          ground (
            arith,
            ap (λ (t : ℕ). is_present (ram t)) same_place,
            ap is_present here,
            present,
            vacant,
          ))
    | inr h ↦ rw (h, here)
  ]

  pub Reaches-write :
      (space virt : ℕ) → Reaches ram space virt place → Reaches (write place v ram) space virt place
  Reaches-write space virt r = record {
    e4 = r.e4;
    e3 = r.e3;
    e2 = r.e2;
    at4 = write_keeps _ r.e4 r.at4 r.present4;
    at3 = write_keeps _ r.e3 r.at3 r.present3;
    at2 = write_keeps _ r.e2 r.at2 r.present2;
    present4 = r.present4;
    present3 = r.present3;
    present2 = r.present2;
    small = r.small;
    place_of = r.place_of;
  }

module _ (fuel : ℕ) (force : Bool) (m n : Machine) (table virt left i e : ℕ)
    (at : At m table n virt (suc left)) (inside : i < 512) (here : entry m.ram table i ≡ e)
    (present : is_present e ≡ true) where
  pub level_at : Level m n (pstruct_addr e) left (descend fuel force virt i n)
  level_at =
      subst (λ (t : ℕ). Level m n (pstruct_addr t) left (descend fuel force virt i n)) here
        (descend-Level fuel force m n table virt left i at inside (ap is_present here ∙ present))

-- The split, with the page directory and the page table mapped behind it.
pub record Split (m : Machine) (space virt place left : ℕ) (r : Reaches m.ram space virt place)
    (out : Outcome (Machine × Option Structures)) : Type 0 where
  pub n : Machine
  pub tables : Structures
  pub returns : out ≡ ok (n, some tables)
  pub pd_at : At m (pstruct_addr r.e3) n tables.pd left
  pub pt_at : At m (pstruct_addr r.e2) n tables.pt left

module _ (fuel : ℕ) (force : Bool) (m : Machine) (space virt place left : ℕ) (valid : IsValid m)
    (whole : space % 4096 ≡ 0) (word : space < 2 ^ 64) (r : Reaches m.ram space virt place)
    (room : left + 4 ≤ unused m.temp_mappings) where
  l1 : Level m m space (suc (suc (suc left))) (map_structure space m)
  l1 = map_structure-Level m space valid whole word (suc (suc (suc left))) (omega arith)

  l2 :
      Level m l1.n'
        (pstruct_addr r.e4)
        (suc (suc left))
        (descend fuel force l1.virt (pml4_index virt) l1.n')
  l2 =
      level_at fuel force m l1.n' space l1.virt (suc (suc left)) (pml4_index virt) r.e4 l1.at
        (index_below _) r.at4 r.present4

  l3 :
      Level m l2.n'
        (pstruct_addr r.e3)
        (suc left)
        (descend fuel force l2.virt (pdpt_index virt) l2.n')
  l3 =
      level_at fuel force m l2.n' (pstruct_addr r.e4) l2.virt (suc left) (pdpt_index virt) r.e3
        l2.at (index_below _) r.at3 r.present3

  l4 : Level m l3.n' (pstruct_addr r.e2) left (descend fuel force l3.virt (pd_index virt) l3.n')
  l4 =
      level_at fuel force m l3.n' (pstruct_addr r.e3) l3.virt left (pd_index virt) r.e2 l3.at
        (index_below _) r.at2 r.present2

  load_before : load (l3.virt + 8 * pd_index virt) l3.n' ≡ ok r.e2
  load_before =
      load-At m l3.n' (pstruct_addr r.e3) l3.virt (suc left) (pd_index virt) l3.at (index_below _)
      ∙ ap ok r.at2

  overridden : (if force then is_present r.e2 && is_large r.e2 else false) ≡ false
  overridden = ground (arith, r.present2, r.small)

  pub split_virtual_and_map-Split :
      Split m space virt place left r (split_virtual_and_map fuel space virt false force m)
  split_virtual_and_map-Split = record {
    n = l4.n';
    tables = record { pml4 = l1.virt; pdpt = l2.virt; pd = l3.virt; pt = l4.virt };
    returns =
        unfold split_virtual_and_map descend_pd in
        rw (l1.returns, l2.returns, l3.returns, load_before, overridden, l4.returns);
    pd_at =
        At-Keeps m l3.n' l4.n' (pstruct_addr r.e3) l3.virt (suc left) left (pstruct_addr r.e2)
          l4.virt l3.at l4.at l4.keeps;
    pt_at = l4.at;
  }

module _ {m : Machine} {space virt place left : ℕ} {r : Reaches m.ram space virt place}
    {out : Outcome (Machine × Option Structures)} (s : Split m space virt place left r out) where
  pub load_pd : load (s.tables.pd + 8 * pd_index virt) s.n ≡ ok r.e2
  load_pd =
      load-At m s.n (pstruct_addr r.e3) s.tables.pd left (pd_index virt) s.pd_at (index_below _)
      ∙ ap ok r.at2

  pub load_pt : load (s.tables.pt + 8 * pt_index virt) s.n ≡ ok (m.ram place)
  load_pt =
      load-At m s.n (pstruct_addr r.e2) s.tables.pt left (pt_index virt) s.pt_at (index_below _)
      ∙ ap (λ (t : ℕ). ok (m.ram t)) (sym r.place_of)

  -- The stores over the two entries.
  pub store_pd :
      (v : ℕ)
      → store (s.tables.pd + 8 * pd_index virt) v s.n
        ≡ ok (record s.n { ram = write (pstruct_addr r.e3 / 8 + pd_index virt) v m.ram })
  store_pd v =
      store-Mapped s.n (pstruct_addr r.e3) s.tables.pd (pd_index virt) s.pd_at.whole s.pd_at.mapped
        (index_below _) v
      ∙ ap
          (λ (ram : ℕ → ℕ).
            ok (record s.n { ram = write (pstruct_addr r.e3 / 8 + pd_index virt) v ram }))
          s.pd_at.same_ram

  pub store_pt :
      (v : ℕ)
      → store (s.tables.pt + 8 * pt_index virt) v s.n
        ≡ ok (record s.n { ram = write place v m.ram })
  store_pt v =
      store-Mapped s.n (pstruct_addr r.e2) s.tables.pt (pt_index virt) s.pt_at.whole s.pt_at.mapped
        (index_below _) v
      ∙ ap
          (λ (ram : ℕ → ℕ).
            ok (record s.n { ram = write (pstruct_addr r.e2 / 8 + pt_index virt) v ram }))
          s.pt_at.same_ram
      ∙ ap (λ (t : ℕ). ok (record s.n { ram = write t v m.ram })) (sym r.place_of)
