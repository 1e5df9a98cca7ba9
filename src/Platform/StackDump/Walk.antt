-- ===== src/Platform/StackDump/Walk.antt =====
-- How the dump of the stack ends (core/tachyon.platform/x86_common/dump.cc).
use tachyon.Base.{
  ℕ, zero, suc, ◌+◌, ◌%◌, ◌≤◌, ◌<◌, ◌≡◌, refl, ap, ◌∙◌, ◌≢◌, ◌⊎◌, inl, inr, true, false, not, ◌&&◌,
  List, [], ◌∷◌, arith, ◌==◌, ==_iff, Bool-cases, length, Outcome, ok, out_of_fuel,
}
use tachyon.Base.Bits.{add64}
use tachyon.Platform.StackDump.{SymbolTables, FrameLine, frame_line, dump_frames, dump_stack}

-- The frames that the base pointers lead through: base pointer and return address of each.
abbrev pub Frames : (ℕ → ℕ) → ℕ → ℕ → List (ℕ × ℕ) → Type 0
Frames word bp ip [] = (bp ≡ 0) ⊎ (ip ≡ 0)
Frames word bp ip (f ∷ fs) =
    (f ≡ (bp, ip)) × (bp ≢ 0) × (ip ≢ 0) × Frames word (word bp) (word (add64 bp 8)) fs

-- The lines of a list of frames.
unfoldable pub lines_of : ℕ → SymbolTables → List (ℕ × ℕ) → List FrameLine
lines_of last_bp tables [] = []
lines_of last_bp tables (f ∷ fs) = frame_line f.0 f.1 last_bp tables ∷ lines_of f.0 tables fs

dump_frames-Frames :
    (word : ℕ → ℕ) (tables : SymbolTables) (fs : List (ℕ × ℕ)) (fuel bp ip last_bp : ℕ)
    → Frames word bp ip fs
    → length fs ≤ fuel
    → dump_frames fuel word bp ip last_bp tables ≡ ok (lines_of last_bp tables fs)
unfolding dump_frames lines_of
dump_frames-Frames word tables [] zero bp ip last_bp frames enough =
    let stop : (not (bp == 0) && not (ip == 0)) ≡ false = ground (arith, frames) in rw stop refl
dump_frames-Frames word tables [] (suc fuel) bp ip last_bp frames enough =
    let stop : (not (bp == 0) && not (ip == 0)) ≡ false = ground (arith, frames) in rw stop refl
dump_frames-Frames word tables (f ∷ fs) zero bp ip last_bp frames enough = absurd (omega arith)
dump_frames-Frames word tables (f ∷ fs) (suc fuel) bp ip last_bp frames enough =
    let onward : (not (bp == 0) && not (ip == 0)) ≡ true = ground (arith, frames.1, frames.2) in
    rw
      (
        onward,
        frames.0,
        dump_frames-Frames word tables fs fuel (word bp) (word (add64 bp 8)) bp frames.3
            (omega arith),
      )
      refl

-- A dump that has come to its end, with one line for each frame.
pub record Dumped (word : ℕ → ℕ) (tables : SymbolTables) (bp ip : ℕ) (r : Outcome (List FrameLine))
    : Type 0 where
  pub frames : List (ℕ × ℕ)
  pub chained : Frames word bp ip frames
  pub returns : r ≡ ok (lines_of 0 tables frames)

-- A base pointer below `top`, at a multiple of 16.
abbrev pub InStack : ℕ → ℕ → Type 0
InStack top b = (b < top) × (b % 16 ≡ 0)

-- The base pointers, with the return addresses, that the chain from one of them comes to.
pub data Reached (word : ℕ → ℕ) (start ret : ℕ) : ℕ → ℕ → Type 0 where
  here : Reached word start ret start ret
  up :
      {bp ip : ℕ}
      → Reached word start ret bp ip
      → bp ≢ 0
      → ip ≢ 0
      → Reached word start ret (word bp) (word (add64 bp 8))

-- The saved base pointers of the chain go up and stay in the stack, up to a null one or the last frame.
abbrev pub Ascends : (ℕ → ℕ) → ℕ → ℕ → ℕ → Type 0
Ascends word top start ret =
    (b i : ℕ)
    → Reached word start ret b i
    → b ≢ 0
    → i ≢ 0
    → (word b ≡ 0) ⊎ ((b < word b) × InStack top (word b))

ascending-Frames :
    (word : ℕ → ℕ) (top start ret : ℕ)
    → Ascends word top start ret
    → (left bp ip : ℕ) → Reached word start ret bp ip
    → (InStack top bp × (top ≤ bp + left)) ⊎ (bp ≡ 0)
    → (fs : List (ℕ × ℕ)) × Frames word bp ip fs × (length fs ≤ left)
ascending-Frames word top start ret rises left bp ip at (inr null) = ([], inl null, omega arith)
ascending-Frames word top start ret rises zero bp ip at (inl (inside, bound)) =
    absurd (omega (arith, inside.0))
ascending-Frames word top start ret rises (suc left) bp ip at (inl (inside, bound)) =
    elim (Bool-cases (bp == 0)) [
      | inl e ↦ ([], inl ((==_iff bp 0).0 e), omega arith)
      | inr some_bp ↦ elim (Bool-cases (ip == 0)) [
        | inl e ↦ ([], inr ((==_iff ip 0).0 e), omega arith)
        | inr some_ip ↦
            let nonzero : bp ≢ 0 = ground arith in
            let some_address : ip ≢ 0 = ground arith in
            let (fs, frames, few) =
              ascending-Frames word top start ret rises left (word bp) (word (add64 bp 8))
                (up at nonzero some_address) (next (rises bp ip at nonzero some_address)) in
            ((bp, ip) ∷ fs, (refl, nonzero, some_address, frames), omega (arith, few))
      ]
    ]
  where
    next :
        (word bp ≡ 0) ⊎ ((bp < word bp) × InStack top (word bp))
        → (InStack top (word bp) × (top ≤ word bp + left)) ⊎ (word bp ≡ 0)
    next (inl null) = inr null
    next (inr (higher, below)) = inl (below, omega arith)

-- Where the base pointers that the chain from the first one comes to, through frames with a return
-- address, go up and are multiples of 16 below a bound, the dump comes to its end, in a number of
-- rounds given by the bound: it writes one line for each frame, from the innermost to the last one
-- in front of a base pointer or a return address that is 0.
pub dump_stack-Dumped :
    (word : ℕ → ℕ) (tables : SymbolTables) (top bp ip : ℕ)
    → Ascends word top bp ip
    → InStack top bp
    → Dumped word tables bp ip (dump_stack top word bp ip tables)
unfolding dump_stack
dump_stack-Dumped word tables top bp ip rises inside =
    let (fs, chained, few) =
      ascending-Frames word top bp ip rises top bp ip here (inl (inside, omega arith)) in
    record {
      frames = fs;
      chained = chained;
      returns = dump_frames-Frames word tables fs top bp ip 0 chained few;
    }

-- On a frame that points to itself the dump never ends.
pub dump_stack_cycle :
    (word : ℕ → ℕ) (tables : SymbolTables) (bp : ℕ)
    → bp ≢ 0
    → word bp ≡ bp
    → word (add64 bp 8) ≢ 0
    → (fuel : ℕ) → dump_stack fuel word bp (word (add64 bp 8)) tables ≡ out_of_fuel
unfolding dump_stack
dump_stack_cycle word tables bp nonzero itself returns fuel = cycle fuel 0
  where
    onward : (not (bp == 0) && not (word (add64 bp 8) == 0)) ≡ true
    onward = ground (arith, nonzero, returns)

    goes_on :
        (fuel last_bp : ℕ)
        → dump_frames fuel word (word bp) (word (add64 bp 8)) bp tables ≡ out_of_fuel
        → dump_frames (suc fuel) word bp (word (add64 bp 8)) last_bp tables ≡ out_of_fuel
    goes_on fuel last_bp again = unfold dump_frames in rw (onward, again) refl

    cycle :
        (fuel last_bp : ℕ)
        → dump_frames fuel word bp (word (add64 bp 8)) last_bp tables ≡ out_of_fuel
    cycle zero last_bp = unfold dump_frames in rw onward refl
    cycle (suc fuel) last_bp = goes_on fuel last_bp (
        ap (λ (t : ℕ). dump_frames fuel word t (word (add64 bp 8)) bp tables) itself
        ∙ cycle fuel bp)
