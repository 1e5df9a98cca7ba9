-- ===== src/Platform/Console.antt =====
-- The text console (core/tachyon.platform/x86_common/console.c). The video memory is a function from
-- the index of a cell behind VRAM_LOCATION to its 16 bits.
pub mod Within
mod Tests
use tachyon.Base.{
  ℕ, zero, suc, ◌+◌, ◌-◌, ◌*◌, ◌/◌, ◌%◌, ◌^◌, ◌≤◌, ◌<◌, min, bit_and, bit_or, ◌≡◌, refl, sym, ap,
  ◌∙◌, ◌≢◌, ◌↔◌, ◌⊎◌, inl, inr, Bool, true, false, not, ◌&&◌, ◌||◌, Option, none, some, List, [],
  ◌∷◌, ◌++◌, map, arith, ltb, leb, ◌==◌, if◌then◌else◌, ltb→lt, lt→ltb, le→ltb, leb→le, le→leb,
  lt→leb, ==_iff, same, same→eq, Bool-cases, Option-cases, passes_below, passes_below_sound, length,
  get_elem?, get_or, set, take, drop, replicate, All, length-append, length-set, length-replicate,
  get_or-set, get_or-replicate, get_or-replicate_lt, get_or_ext, All-set, All-get_or, All-replicate,
  Outcome, ok, fatal, out_of_fuel, ◌>>=◌, ◌>>◌, kassert, >>=-eq-ok,
}
use tachyon.Base.Bits.{u16}

abbrev pub kcon_width : ℕ
kcon_width = 80

abbrev pub kcon_height : ℕ
kcon_height = 25

pub record Console : Type 0 where
  pub kcon_x : ℕ
  pub kcon_y : ℕ
  pub kcon_attr : ℕ
  pub vram : ℕ → ℕ

abbrev pub put_cell : ℕ → ℕ → (ℕ → ℕ) → ℕ → ℕ
put_cell i v vram j = if j == i then v else vram j

-- `rep stosl` of 0x0F200F20: both halves of it are 0x0F20.
unfoldable pub clear_cells : ℕ → ℕ → (ℕ → ℕ) → ℕ → ℕ
clear_cells zero i vram = vram
clear_cells (suc n) i vram = clear_cells n (i + 1) (put_cell i 0x0F20 vram)

unfoldable pub kcon_reset : Console → Console
kcon_reset c = record c {
  kcon_x = 0;
  kcon_y = 0;
  vram = clear_cells (kcon_width * kcon_height) 0 c.vram;
}

unfoldable pub move_cells : ℕ → ℕ → ℕ → (ℕ → ℕ) → ℕ → ℕ
move_cells zero source dest vram = vram
move_cells (suc n) source dest vram =
    move_cells n (source + 1) (dest + 1) (put_cell dest (vram source) vram)

unfoldable pub blank_cells : ℕ → ℕ → ℕ → (ℕ → ℕ) → ℕ → ℕ
blank_cells zero attr dest vram = vram
blank_cells (suc n) attr dest vram =
    blank_cells n attr (dest + 1) (put_cell dest (bit_or 32 attr) vram)

-- The last line is cleared behind the cells that moved.
unfoldable pub scroll1 : Console → Console
scroll1 c = record c {
  vram =
      blank_cells kcon_width c.kcon_attr (kcon_width * kcon_height - kcon_width)
        (move_cells (kcon_width * kcon_height - kcon_width) kcon_width 0 c.vram);
}

abbrev pub calc_location : Console → ℕ
calc_location c = kcon_width * c.kcon_y + c.kcon_x

-- A byte is a char, which is signed.
abbrev pub cell_of : ℕ → ℕ → ℕ
cell_of ch attr = bit_or (if ltb ch 128 then ch else ch + 0xFF00) attr

abbrev pub is_break : ℕ → Bool
is_break ch = (ch == 10) || (ch == 13)

-- The first test of the loop of __kcon_write: a printable character goes to the cell `cur`.
unfoldable pub print_char : ℕ → Console × ℕ → Console × ℕ
print_char ch (c, cur) =
    if not (is_break ch)
    then (
      record c { vram = put_cell cur (cell_of ch c.kcon_attr) c.vram; kcon_x = u16 (c.kcon_x + 1) },
      cur,
    )
    else (c, cur)

-- The second test: the end of a line.
unfoldable pub wrap_line : ℕ → Console × ℕ → Console × ℕ
wrap_line ch (c, cur) =
    if leb kcon_width c.kcon_x || is_break ch
    then if not (ch == 13)
      then (
        record c { kcon_x = 0; kcon_y = u16 (c.kcon_y + 1) },
        kcon_width * u16 (c.kcon_y + 1) - 1,
      )
      else (record c { kcon_x = 0 }, cur)
    else (c, cur)

-- The third test: the end of the screen.
unfoldable pub wrap_screen : Console × ℕ → Console × ℕ
wrap_screen (c, cur) =
    if leb kcon_height c.kcon_y
    then (let s = record (scroll1 c) { kcon_y = kcon_height - 1 } in (s, calc_location s - 1))
    else (c, cur)

unfoldable pub write_loop : List ℕ → Console × ℕ → Console × ℕ
write_loop [] s = s
write_loop (ch ∷ str) s =
    let s' = wrap_screen (wrap_line ch (print_char ch s)) in write_loop str (s'.0, s'.1 + 1)

unfoldable pub kcon_write : List ℕ → Console → Console
kcon_write str c = (write_loop str (c, calc_location c)).0
