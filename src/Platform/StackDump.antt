-- ===== src/Platform/StackDump.antt =====
-- The dump of the kernel stack and the symbol look-up (core/tachyon.platform/x86_common/dump.cc) on
-- x86-64. `word` is the memory, read eight bytes at a time; the lines that are written are the result.
mod Walk
mod Tests
use tachyon.Base.{
  ℕ, zero, suc, ◌+◌, ◌-◌, ◌*◌, ◌/◌, ◌%◌, ◌^◌, ◌≤◌, ◌<◌, min, bit_and, bit_or, ◌≡◌, refl, sym, ap,
  ◌∙◌, ◌≢◌, ◌↔◌, ◌⊎◌, inl, inr, Bool, true, false, not, ◌&&◌, ◌||◌, Option, none, some, List, [],
  ◌∷◌, ◌++◌, map, arith, ltb, leb, ◌==◌, if◌then◌else◌, ltb→lt, lt→ltb, le→ltb, leb→le, le→leb,
  lt→leb, ==_iff, same, same→eq, Bool-cases, Option-cases, passes_below, passes_below_sound, length,
  get_elem?, get_or, set, take, drop, replicate, All, length-append, length-set, length-replicate,
  get_or-set, get_or-replicate, get_or-replicate_lt, get_or_ext, All-set, All-get_or, All-replicate,
  Outcome, ok, fatal, out_of_fuel, ◌>>=◌, ◌>>◌, kassert, >>=-eq-ok,
}
use tachyon.Base.Bits.{sub64, add64}

-- _symtab and _strtab
pub record SymbolTables : Type 0 where
  pub symtab : ℕ
  pub strtab : ℕ

-- __dump_set_symtab forgets the tables, and looks for no others.
unfoldable pub dump_set_symtab : ℕ → ℕ → ℕ → ℕ → SymbolTables → SymbolTables
dump_set_symtab num size addr shndx tables = record { symtab = 0; strtab = 0 }

-- struct syminfo; the name is always that of an unknown symbol.
pub record SymbolInfo : Type 0 where
  pub addr : ℕ

unfoldable pub get_symbol_info : ℕ → SymbolTables → SymbolInfo
get_symbol_info ip tables = record { addr = ip }

-- One line of the dump.
pub record FrameLine : Type 0 where
  pub ip : ℕ
  pub offset : ℕ
  pub frame_size : ℕ

-- The size is that of the frame without its base pointer and return address.
unfoldable pub frame_size : ℕ → ℕ → ℕ
frame_size bp last_bp = if last_bp == 0 then 0 else sub64 (sub64 bp last_bp) (8 * 2)

unfoldable pub frame_line : ℕ → ℕ → ℕ → SymbolTables → FrameLine
frame_line bp ip last_bp tables = record {
  ip = ip;
  offset = sub64 ip (get_symbol_info ip tables).addr;
  frame_size = frame_size bp last_bp;
}

-- `while(bp && ip)`
unfoldable pub dump_frames : ℕ → (ℕ → ℕ) → ℕ → ℕ → ℕ → SymbolTables → Outcome (List FrameLine)
dump_frames zero word bp ip last_bp tables =
    if not (bp == 0) && not (ip == 0) then out_of_fuel else ok []
dump_frames (suc fuel) word bp ip last_bp tables =
    let rest = dump_frames fuel word (word bp) (word (add64 bp 8)) bp tables in
    if not (bp == 0) && not (ip == 0)
    then rest >>= (λ lines. ok (frame_line bp ip last_bp tables ∷ lines))
    else ok []

unfoldable pub dump_stack : ℕ → (ℕ → ℕ) → ℕ → ℕ → SymbolTables → Outcome (List FrameLine)
dump_stack fuel word bp ip tables = dump_frames fuel word bp ip 0 tables
