-- ===== src/Binary/Elf.antt =====
-- The structures of ELF files (include/tachyon.binary/elf) in the 64-bit build, and the macros that
-- pack the fields of a symbol and of a relocation. A field is a number; `e_ident` is a list of bytes.
mod Info
use tachyon.Base.{ℕ, ◌+◌, ◌*◌, ◌%◌, ◌^◌, bit_and, List}
use tachyon.Base.Bits.{u8, shl64, add64, shr}

pub record Ehdr : Type 0 where
  pub e_ident : List ℕ
  pub e_type : ℕ
  pub e_machine : ℕ
  pub e_version : ℕ
  pub e_entry : ℕ
  pub e_phoff : ℕ
  pub e_shoff : ℕ
  pub e_flags : ℕ
  pub e_ehsize : ℕ
  pub e_phentsize : ℕ
  pub e_phnum : ℕ
  pub e_shentsize : ℕ
  pub e_shnum : ℕ
  pub e_shstrndx : ℕ

pub record Phdr : Type 0 where
  pub p_type : ℕ
  pub p_flags : ℕ
  pub p_offset : ℕ
  pub p_vaddr : ℕ
  pub p_paddr : ℕ
  pub p_filesz : ℕ
  pub p_memsz : ℕ
  pub p_align : ℕ

pub record Shdr : Type 0 where
  pub sh_name : ℕ
  pub sh_type : ℕ
  pub sh_flags : ℕ
  pub sh_addr : ℕ
  pub sh_offset : ℕ
  pub sh_size : ℕ
  pub sh_link : ℕ
  pub sh_info : ℕ
  pub sh_addralign : ℕ
  pub sh_entsize : ℕ

pub record Sym : Type 0 where
  pub st_name : ℕ
  pub st_info : ℕ
  pub st_other : ℕ
  pub st_shndx : ℕ
  pub st_value : ℕ
  pub st_size : ℕ

pub record Rel : Type 0 where
  pub r_offset : ℕ
  pub r_info : ℕ

pub record Rela : Type 0 where
  pub r_offset : ℕ
  pub r_info : ℕ
  pub r_addend : ℕ

-- STI_DECODE and STI_ENCODE: the binding and the type of a symbol, in the byte st_info.
unfoldable pub sti_decode : ℕ → ℕ × ℕ
sti_decode i = (shr i 4, bit_and i 0xF)

unfoldable pub sti_encode : ℕ → ℕ → ℕ
sti_encode b t = u8 (b * 2 ^ 4 + bit_and t 0xF)

-- RI_DECODE and RI_ENCODE: the symbol and the type of a relocation, in the 64 bits of r_info.
unfoldable pub ri_decode : ℕ → ℕ × ℕ
ri_decode i = (shr i 32, bit_and i 0xFFFFFFFF)

unfoldable pub ri_encode : ℕ → ℕ → ℕ
ri_encode s t = add64 (shl64 s 32) (bit_and t 0xFFFFFFFF)

-- The same macros of the 32-bit build, where r_info has 32 bits.
unfoldable pub ri_decode_x86 : ℕ → ℕ × ℕ
ri_decode_x86 i = (shr i 8, bit_and i 0xFF)

unfoldable pub ri_encode_x86 : ℕ → ℕ → ℕ
ri_encode_x86 s t = (s * 2 ^ 8 % 2 ^ 32 + bit_and t 0xFF) % 2 ^ 32
