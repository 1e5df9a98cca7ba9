-- ===== src/Platform/Bss.antt =====
-- The clearing of the bss (core/tachyon.platform/x86_common/bss.c) on x86-64. Memory is a function from
-- addresses to words of eight bytes; the words used are those at `start`, `start + 8` and so on.
use tachyon.Base.{
  ℕ, zero, suc, ◌+◌, ◌*◌, ◌≤◌, ◌<◌, ◌≡◌, refl, ap, ◌∙◌, ◌⊎◌, inl, inr, true, false, arith, ltb,
  ◌==◌, if◌then◌else◌, ltb→lt, Bool-cases, Outcome, ok, out_of_fuel,
}

-- `while(pstart < pend) *pstart++ = 0`
unfoldable pub init_bss : ℕ → ℕ → ℕ → (ℕ → ℕ) → Outcome (ℕ → ℕ)
init_bss zero pstart pend mem = if ltb pstart pend then out_of_fuel else ok mem
init_bss (suc fuel) pstart pend mem =
    let rest = init_bss fuel (pstart + 8) pend (λ x. if x == pstart then 0 else mem x) in
    if ltb pstart pend then rest else ok mem

-- The words from `pstart` on are cleared while they start below `pend`.
pub record Zeroed (pstart pend : ℕ) (mem : ℕ → ℕ) (r : Outcome (ℕ → ℕ)) : Type 0 where
  pub mem' : ℕ → ℕ
  pub returns : r ≡ ok mem'
  pub inside : (k : ℕ) → pstart + 8 * k < pend → mem' (pstart + 8 * k) ≡ 0
  pub outside : (x : ℕ) → (x < pstart) ⊎ (pend ≤ x) → mem' x ≡ mem x

-- The loop ends after at most as many rounds as there are words; each word that starts in the bss is
-- cleared, and no word below the bss and none that starts behind it changes.
pub init_bss-Zeroed :
    (fuel pstart pend : ℕ) (mem : ℕ → ℕ)
    → pend ≤ pstart + 8 * fuel
    → Zeroed pstart pend mem (init_bss fuel pstart pend mem)
unfolding init_bss
init_bss-Zeroed zero pstart pend mem enough =
    let stop : ltb pstart pend ≡ false = ground arith in
    record {
      mem' = mem;
      returns = rw stop refl;
      inside = λ k low. absurd (omega arith);
      outside = λ x apart. refl;
    }
init_bss-Zeroed (suc fuel) pstart pend mem enough = elim (Bool-cases (ltb pstart pend)) [
  | inr stop ↦ record {
    mem' = mem;
    returns = rw stop refl;
    inside = λ k low. absurd (ground arith);
    outside = λ x apart. refl;
  }
  | inl onward ↦
      let next =
        init_bss-Zeroed fuel (pstart + 8) pend (λ x. if x == pstart then 0 else mem x)
          (omega arith) in
      record {
        mem' = next.mem';
        returns = rw onward next.returns;
        inside = λ k low. cleared next.mem' next.inside next.outside k low;
        outside =
            λ x apart. next.outside x (ground arith) ∙ ground (arith, ltb→lt pstart pend onward);
      }
]
  where
    cleared :
        (mem' : ℕ → ℕ)
        → ((k : ℕ) → pstart + 8 + 8 * k < pend → mem' (pstart + 8 + 8 * k) ≡ 0)
        → ((x : ℕ) → (x < pstart + 8) ⊎ (pend ≤ x) → mem' x ≡ (if x == pstart then 0 else mem x))
        → (k : ℕ) → pstart + 8 * k < pend
        → mem' (pstart + 8 * k) ≡ 0
    cleared mem' behind other zero low =
        let start : pstart + 8 * 0 ≡ pstart = omega arith in
        let self : (pstart == pstart) ≡ true = ground arith in
        ap mem' start ∙ other pstart (inl (omega arith)) ∙ rw self refl
    cleared mem' behind other (suc k) low =
        let later : pstart + 8 * suc k ≡ pstart + 8 + 8 * k = omega arith in
        ap mem' later ∙ behind k (omega arith)
