-- ===== src/Platform/StackDump/Tests.antt =====
-- A stack with two frames.
use tachyon.Base.{ℕ, ◌≡◌, refl, ap, ◌⊎◌, inl, inr, [], ◌∷◌, arith, ◌==◌, if◌then◌else◌, ok}
use tachyon.Platform.StackDump.{
  SymbolTables, frame_line, frame_size, get_symbol_info, dump_frames, dump_stack,
}
use tachyon.Platform.StackDump.Walk.{Reached, here, up, Ascends, Dumped, dump_stack-Dumped}

abbrev tables : SymbolTables
tables = record { symtab = 0; strtab = 0 }

-- The frame at 0x100 was called from that at 0x140, which saves a null base pointer. All else in the
-- memory is arbitrary, here 0x33.
abbrev stack : ℕ → ℕ
stack x =
    if x == 0x100
    then 0x140
    else if x == 0x108
    then 0x7000
    else if x == 0x140
    then 0
    else if x == 0x148
    then 0x8000
    else 0x33

stack-Reached : (b i : ℕ) → Reached stack 0x100 0x6000 b i → (b ≡ 0x100) ⊎ (b ≡ 0x140) ⊎ (b ≡ 0)
stack-Reached b i here = inl refl
stack-Reached b i (up {bp} {ip} at nonzero some_ip) = elim (stack-Reached bp ip at) [
  | inl e ↦ inr (inl (ap stack e))
  | inr (inl e) ↦ inr (inr (ap stack e))
  | inr (inr e) ↦ absurd (nonzero e)
]

stack-Ascends : Ascends stack 0x200 0x100 0x6000
stack-Ascends b i at nonzero some_ip = elim (stack-Reached b i at) [
  | inl e ↦ inr (ground (arith, e))
  | inr (inl e) ↦ inl (ap stack e)
  | inr (inr e) ↦ absurd (nonzero e)
]

two_lines :
    dump_stack 9 stack 0x100 0x6000 tables
    ≡ ok (
        record { ip = 0x6000; offset = 0; frame_size = 0 }
        ∷ record { ip = 0x7000; offset = 0; frame_size = 0x30 }
        ∷ [])
unfolding dump_stack dump_frames frame_line frame_size get_symbol_info
two_lines = refl

dump_stack-Dumped_example :
    Dumped stack tables 0x100 0x6000 (dump_stack 0x200 stack 0x100 0x6000 tables)
dump_stack-Dumped_example =
    dump_stack-Dumped stack tables 0x200 0x100 0x6000 stack-Ascends (omega arith, refl)
