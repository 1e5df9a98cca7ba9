-- ===== src/Platform/Runtime/Tables.antt =====
-- The loops over the tables of constructors and destructors
-- (core/tachyon.platform/x86_common/cxx.c).
use tachyon.Base.{
  ℕ, zero, suc, ◌+◌, ◌*◌, ◌≤◌, ◌≡◌, refl, ap, ◌∙◌, true, false, List, [], ◌∷◌, arith, ltb, ok,
}
use tachyon.Platform.Runtime.{call_table}

-- The words of a table of `count` entries.
unfoldable pub entries : (ℕ → ℕ) → ℕ → ℕ → List ℕ
entries mem ct zero = []
entries mem ct (suc count) = mem ct ∷ entries mem (ct + 8) count

-- Every function of the table is called once, in order, in as many rounds as there are entries.
pub call_table-entries :
    (mem : ℕ → ℕ) (count fuel ct : ℕ)
    → count ≤ fuel
    → call_table fuel mem ct (ct + 8 * count) ≡ ok (entries mem ct count)
unfolding call_table entries
call_table-entries mem zero zero ct enough =
    let stop : ltb ct (ct + 8 * 0) ≡ false = ground arith in rw stop refl
call_table-entries mem zero (suc fuel) ct enough =
    let stop : ltb ct (ct + 8 * 0) ≡ false = ground arith in rw stop refl
call_table-entries mem (suc count) zero ct enough = absurd (omega arith)
call_table-entries mem (suc count) (suc fuel) ct enough =
    let onward : ltb ct (ct + 8 * suc count) ≡ true = ground arith in
    let end : ct + 8 * suc count ≡ ct + 8 + 8 * count = omega arith in
    let rest : call_table fuel mem (ct + 8) (ct + 8 * suc count) ≡ ok (entries mem (ct + 8) count) =
      ap (call_table fuel mem (ct + 8)) end
      ∙ call_table-entries mem count fuel (ct + 8) (omega arith) in
    rw (onward, rest) refl
