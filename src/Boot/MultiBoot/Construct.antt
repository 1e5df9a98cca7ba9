-- ===== src/Boot/MultiBoot/Construct.antt =====
-- The constructor of MultiBootInformation (core/tachyon.boot/MultiBoot.cc) and the modules that the
-- loader passes (include/tachyon.boot/MultiBoot.h). The modules are read 32 bits at a time.
use tachyon.Base.{ℕ, ◌+◌, ◌*◌, ◌&&◌, ltb, if◌then◌else◌, Outcome, ok, ◌>>=◌}
use tachyon.Boot.MultiBoot.{MbInfo, has_flag, mem_range_count}
use tachyon.Platform.StackDump.{SymbolTables, dump_set_symtab}

abbrev pub mb_info_elf_syms : ℕ
mb_info_elf_syms = 0x020

-- The fields of mb_info on the symbols of the kernel.
pub record SymbolFields : Type 0 where
  pub esym_shdr_num : ℕ
  pub esym_shdr_size : ℕ
  pub esym_shdr_addr : ℕ
  pub esym_shdr_shndx : ℕ

pub record MultiBootInformation : Type 0 where
  pub info : MbInfo
  pub mmap_count : ℕ

abbrev pub note_symbols : MbInfo → SymbolFields → SymbolTables → SymbolTables
note_symbols info syms tables =
    if has_flag mb_info_elf_syms info && ltb 0 syms.esym_shdr_num
    then dump_set_symtab syms.esym_shdr_num syms.esym_shdr_size syms.esym_shdr_addr
        syms.esym_shdr_shndx tables
    else tables

-- The object, and the tables of the stack dump behind the call. `fuel` is that of countEntries.
unfoldable pub make_information :
    ℕ
    → (ℕ → ℕ)
    → MbInfo
    → SymbolFields
    → SymbolTables
    → Outcome (MultiBootInformation × SymbolTables)
make_information fuel read32 info syms tables = do
  count ← mem_range_count fuel read32 info
  ok (record { info = info; mmap_count = count }, note_symbols info syms tables)

-- The address of an mb_module: four words each.
abbrev pub module_addr : ℕ → ℕ → ℕ
module_addr mod_base mod_num = mod_base + 16 * mod_num

abbrev pub module_start : (ℕ → ℕ) → ℕ → ℕ
module_start read32 pmod = read32 pmod

abbrev pub module_end : (ℕ → ℕ) → ℕ → ℕ
module_end read32 pmod = read32 (pmod + 4)

abbrev pub module_string : (ℕ → ℕ) → ℕ → ℕ
module_string read32 pmod = read32 (pmod + 8)
