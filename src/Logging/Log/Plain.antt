-- ===== src/Logging/Log/Plain.antt =====
-- Log::format (core/tachyon.logging/Log.cc) on strings without conversions, and behind the end of one.
use tachyon.Base.{
  ℕ, zero, suc, ◌+◌, ◌-◌, ◌≤◌, ◌<◌, ◌≡◌, refl, sym, ap, ◌∙◌, ◌≢◌, true, false, List, [], ◌∷◌, ◌++◌,
  arith, ltb, leb, ◌==◌, length, take, All, length-append, ok,
}
use tachyon.Logging.Log.{
  checked_append, append_all, append_padded, skip_digits, unknown_text, convert, read_spec,
  format_loop, format,
}

-- A string without `%` and NUL.
abbrev pub IsPlain : ℕ → Type 0
IsPlain c = (c ≢ 0) × (c ≢ 37)

append_one :
    (out : List ℕ) (c : ℕ) (k : ℕ) (cs : List ℕ)
    → (out ++ (c ∷ [])) ++ take k cs ≡ out ++ (c ∷ take k cs)
append_one [] c k cs = refl
append_one (x ∷ xs) c k cs = ap (◌∷◌ x) (append_one xs c k cs)

append_more : (out : List ℕ) (c : ℕ) (cs : List ℕ) → (out ++ (c ∷ [])) ++ cs ≡ out ++ (c ∷ cs)
append_more [] c cs = refl
append_more (x ∷ xs) c cs = ap (◌∷◌ x) (append_more xs c cs)

append_nothing : (out : List ℕ) → out ++ [] ≡ out
append_nothing [] = refl
append_nothing (x ∷ xs) = ap (◌∷◌ x) (append_nothing xs)

plain_loop :
    (texts : ℕ → List ℕ) (args : ℕ → ℕ) (behind : List ℕ) (i len fuel room : ℕ) (out fmt : List ℕ)
    → All IsPlain fmt
    → length fmt < fuel
    → length out + suc room ≡ len
    → format_loop fuel texts args i len out (fmt ++ (0 ∷ behind)) ≡ ok (out ++ take (suc room) fmt)
unfolding format_loop checked_append
plain_loop texts args behind i len zero room out fmt plain enough left = absurd (omega arith)
plain_loop texts args behind i len (suc fuel) room out [] plain enough left =
    ap ok (sym (append_nothing out))
plain_loop texts args behind i len (suc fuel) zero out (c ∷ fmt) plain enough left =
    let nz : (c == 0) ≡ false = ground (arith, plain.0.0) in
    let np : (c == 37) ≡ false = ground (arith, plain.0.1) in
    let fits : ltb (length out) len ≡ true = ground arith in
    let size : length (out ++ (c ∷ [])) ≡ length out + 1 = length-append out (c ∷ []) in
    let full : leb len (length out + 1) ≡ true = ground arith in rw (nz, np, fits, size, full)
plain_loop texts args behind i len (suc fuel) (suc room) out (c ∷ fmt) plain enough left =
    let nz : (c == 0) ≡ false = ground (arith, plain.0.0) in
    let np : (c == 37) ≡ false = ground (arith, plain.0.1) in
    let fits : ltb (length out) len ≡ true = ground arith in
    let size : length (out ++ (c ∷ [])) ≡ length out + 1 = length-append out (c ∷ []) in
    let more : leb len (length out + 1) ≡ false = ground arith in
    let next =
      plain_loop texts args behind i len fuel room (out ++ (c ∷ [])) fmt plain.1 (omega arith)
        (omega arith) in
    rw (nz, np, fits, size, more, next) (ap ok (append_one out c (suc room) fmt))

-- A string without % and NUL comes out as it is, cut off at the size of the buffer, which is not 0,
-- whatever stands behind its NUL.
pub format_plain :
    (texts : ℕ → List ℕ) (args : ℕ → ℕ) (len : ℕ) (fmt behind : List ℕ)
    → All IsPlain fmt
    → 0 < len
    → format texts args len (fmt ++ (0 ∷ behind)) ≡ ok (take len fmt)
unfolding format
format_plain texts args zero fmt behind plain pos = absurd (omega arith)
format_plain texts args (suc len) fmt behind plain pos =
    plain_loop texts args behind 0 (suc len) (length (fmt ++ (0 ∷ behind)) + 1) len [] fmt plain
      (omega (arith, length-append fmt (0 ∷ behind))) (omega arith)

append_all-fits :
    (len : ℕ) (out cs : List ℕ) → length out + length cs ≤ len → append_all len out cs ≡ out ++ cs
unfolding append_all checked_append
append_all-fits len out [] fits = sym (append_nothing out)
append_all-fits len out (c ∷ cs) fits =
    let room : ltb (length out) len ≡ true = ground arith in
    let size : length (out ++ (c ∷ [])) ≡ length out + 1 = length-append out (c ∷ []) in
    rw room (append_all-fits len (out ++ (c ∷ [])) cs (omega (arith, size)) ∙ append_more out c cs)

runs_on :
    (texts : ℕ → List ℕ) (args : ℕ → ℕ) (len fuel : ℕ) (next behind : List ℕ)
    → All IsPlain next
    → 16 < len
    → length next < fuel
    → format_loop (suc fuel) texts args 0 len [] (37 ∷ 0 ∷ (next ++ (0 ∷ behind)))
      ≡ ok (unknown_text ++ take (len - 16) next)
unfolding format_loop append_padded convert read_spec skip_digits append_all
runs_on texts args len fuel next behind plain long enough =
    let built : append_all len [] unknown_text ≡ unknown_text =
      append_all-fits len [] unknown_text (omega arith) in
    let room : leb len 16 ≡ false = ground arith in
    let left : suc (len - 17) ≡ len - 16 = omega arith in
    rw (built, room)
      (plain_loop texts args behind 0 len fuel (len - 17) unknown_text next plain enough
          (omega arith)
        ∙ ap (λ (t : ℕ). ok (unknown_text ++ take t next)) left)

-- A string that ends in % is formatted on behind its NUL: the bytes up to the next NUL come out.
pub format_runs_on :
    (texts : ℕ → List ℕ) (args : ℕ → ℕ) (len : ℕ) (next behind : List ℕ)
    → All IsPlain next
    → 16 < len
    → format texts args len (37 ∷ 0 ∷ (next ++ (0 ∷ behind)))
      ≡ ok (unknown_text ++ take (len - 16) next)
unfolding format
format_runs_on texts args len next behind plain long =
    let rounds : length (37 ∷ 0 ∷ (next ++ (0 ∷ behind))) + 1
        ≡ suc (length (next ++ (0 ∷ behind)) + 2) =
      omega arith in
    ap (λ (f : ℕ). format_loop f texts args 0 len [] (37 ∷ 0 ∷ (next ++ (0 ∷ behind)))) rounds
    ∙ runs_on texts args len (length (next ++ (0 ∷ behind)) + 2) next behind plain long
        (omega (arith, length-append next (0 ∷ behind)))
